-- ===== src/Asio/Invariant.antt =====
-- What holds of an `AsioBackend` between two steps.
use cross_plaform_serial.Common.{
  ℕ, Bytes, Bool, true, List, [], ◌∷◌, ◌≡◌, refl, ◌∙◌, ◌^◌, ◌<◌, arith, inl, inr, Option-cases,
}
use cross_plaform_serial.Types.{Directions}
use cross_plaform_serial.Device.{Device, IsDevice, PortOption}
use cross_plaform_serial.Asio.State.{
  Asio, new, Completion, is_open, reading, posted, writing, clear_error, Handler,
}
use cross_plaform_serial.Asio.Config.{
  on_open_port, configure, configure_kept, set_raw, apply_config, apply_native_timeouts,
  set_checked, set_baud_rate, set_data_bits, set_parity, set_stop_bits, set_flow_control,
}
use cross_plaform_serial.Asio.Io.{
  flush_selector, run_handler, work_cases, work, work_all, write, read, flush, clear,
}
use cross_plaform_serial.Asio.Run.{
  Action, works, writes, reads, sets_baud_rate, sets_data_bits, sets_parity, sets_stop_bits,
  sets_flow_control, flushes, clears, clears_error, act,
}

-- The port is open exactly while the worker thread exists, which the work guard keeps alive; the
-- read loop runs only then; the counter is an `int64_t` pattern.
pub record Inv {d : Device} (s : Asio d) : Type 0 where
  pub thread_open : is_open s ≡ s.thread
  pub guarded : s.guard ≡ s.thread
  pub running_thread : s.running ≡ true → s.thread ≡ true
  pub counter : s.bytes_to_write < 2 ^ 64

module _ {d : Device} where
  pub new-Inv : Inv (new {d = d})
  unfolding new is_open
  new-Inv = ground arith

  -- The invariant speaks of five members.
  pub same-Inv :
      (s t : Asio d)
      → t.port ≡ s.port
      → t.guard ≡ s.guard
      → t.thread ≡ s.thread
      → t.running ≡ s.running
      → t.bytes_to_write ≡ s.bytes_to_write
      → Inv s
      → Inv t
  unfolding is_open
  same-Inv s t p g h r w v = ground arith

  -- Handlers leave the port, the guard and the thread alone, and never start the read loop.
  pub run_handler-Inv :
      (h : Handler) (c : Completion) (s : Asio d) → Inv s → Inv (run_handler h c s)
  unfolding run_handler is_open
  run_handler-Inv reading c s v = ground arith
  run_handler-Inv (posted bytes) c s v = ground arith
  run_handler-Inv (writing bytes) c s v = ground arith

  work-Inv : (c : Completion) (s : Asio d) → Inv s → Inv (work c s)
  work-Inv c s v =
      work_cases Inv c s v λ h e t. run_handler-Inv h c _ (same-Inv s _ refl refl refl refl refl v)

  pub work_all-Inv : (cs : List Completion) (s : Asio d) → Inv s → Inv (work_all cs s)
  unfolding work_all
  work_all-Inv [] s v = v
  work_all-Inv (c ∷ cs) s v = work_all-Inv cs (work c s) (work-Inv c s v)

module _ {d : Device} (laws : IsDevice d) where
  configure-is_open : (s : Asio d) (p : d.Port) → d.is_open (configure s p) ≡ d.is_open p
  configure-is_open s p =
      configure_kept (λ q. d.is_open q ≡ d.is_open p) (λ o q h. laws.set_option_open o q ∙ h) s p
        refl

  set_raw-is_open : (s : Asio d) (p : d.Port) → d.is_open (set_raw s p) ≡ d.is_open p
  unfolding set_raw
  set_raw-is_open s p = elim (Option-cases (d.tcgetattr p)) [
    | inl e ↦ rw (e, set_raw) refl
    | inr (t, e) ↦ rw (e, set_raw) (laws.tcsetattr_open _ p)
  ]

  on_open_port-Inv :
      (body : Asio d → d.Port → d.Port) (s : Asio d)
      → ((p : d.Port) → d.is_open (body s p) ≡ d.is_open p)
      → Inv s
      → Inv (on_open_port body s)
  unfolding on_open_port is_open
  on_open_port-Inv body s kept v = elim (Option-cases s.port) [
    | inl e ↦ ground arith
    | inr (p, e) ↦ ground (arith, kept p)
  ]

  on_open_port-is_open :
      (body : Asio d → d.Port → d.Port) (s : Asio d)
      → ((p : d.Port) → d.is_open (body s p) ≡ d.is_open p)
      → (is_open (on_open_port body s) ≡ is_open s)
        × ((on_open_port body s).bytes_to_write ≡ s.bytes_to_write)
  unfolding on_open_port is_open
  on_open_port-is_open body s kept = elim (Option-cases s.port) [
    | inl e ↦ ground arith
    | inr (p, e) ↦ ground (arith, kept p)
  ]

  pub apply_config-is_open : (s : Asio d) → is_open (apply_config s) ≡ is_open s
  unfolding apply_config
  apply_config-is_open s = (on_open_port-is_open configure s (configure-is_open s)).0

  -- Applying the configuration neither opens nor closes the port, and counts nothing.
  pub configured-is_open :
      (s : Asio d)
      → (is_open (apply_native_timeouts (apply_config s)) ≡ is_open s)
        × ((apply_native_timeouts (apply_config s)).bytes_to_write ≡ s.bytes_to_write)
  unfolding apply_native_timeouts apply_config
  configured-is_open s =
      let a = on_open_port-is_open configure s (configure-is_open s) in
      let t = on_open_port configure s in
      let b = on_open_port-is_open set_raw t (set_raw-is_open t) in (b.0 ∙ a.0, b.1 ∙ a.1)

  pub apply_config-Inv : (s : Asio d) → Inv s → Inv (apply_config s)
  unfolding apply_config
  apply_config-Inv s v = on_open_port-Inv configure s (configure-is_open s) v

  pub apply_native_timeouts-Inv : (s : Asio d) → Inv s → Inv (apply_native_timeouts s)
  unfolding apply_native_timeouts
  apply_native_timeouts-Inv s v = on_open_port-Inv set_raw s (set_raw-is_open s) v

  pub set_checked-is_open : (o : PortOption) (s : Asio d) → is_open (set_checked o s).0 ≡ is_open s
  unfolding set_checked is_open
  set_checked-is_open o s = elim (Option-cases s.port) [
    | inl e ↦ ground arith
    | inr (p, e) ↦ ground (arith, laws.set_option_open o p)
  ]

  set_checked-Inv : (o : PortOption) (s : Asio d) → Inv s → Inv (set_checked o s).0
  unfolding set_checked is_open
  set_checked-Inv o s v = elim (Option-cases s.port) [
    | inl e ↦ ground arith
    | inr (p, e) ↦ ground (arith, laws.set_option_open o p)
  ]

  flush-Inv : (s : Asio d) → Inv s → Inv (flush s).0
  unfolding flush is_open
  flush-Inv s v = elim (Option-cases s.port) [
    | inl e ↦ ground arith
    | inr (p, e) ↦ ground (arith, laws.tcdrain_open p)
  ]

  clear-Inv : (dirs : Directions) (s : Asio d) → Inv s → Inv (clear dirs s).0
  unfolding clear is_open
  clear-Inv dirs s v = elim (Option-cases s.port) [
    | inl e ↦ ground arith
    | inr (p, e) ↦ ground (arith, laws.tcflush_open (flush_selector dirs) p)
  ]

  write-Inv : (bytes : Bytes) (size : ℕ) (s : Asio d) → Inv s → Inv (write bytes size s).0
  unfolding write is_open
  write-Inv bytes size s v = ground arith

  read-Inv : (out : Bool) (most : ℕ) (s : Asio d) → Inv s → Inv (read out most s).0
  unfolding read is_open
  read-Inv out most s v = ground arith

  -- Storing a setting changes nothing that the invariant speaks of.
  pub act-Inv : (a : Action) (s : Asio d) → Inv s → Inv (act a s)
  unfolding act set_baud_rate set_data_bits set_parity set_stop_bits set_flow_control is_open
      clear_error
  act-Inv (works c) s v = work-Inv c s v
  act-Inv (writes bytes size) s v = write-Inv bytes size s v
  act-Inv (reads out most) s v = read-Inv out most s v
  act-Inv (sets_baud_rate r) s v = set_checked-Inv _ _ (same-Inv s _ refl refl refl refl refl v)
  act-Inv (sets_data_bits b) s v = set_checked-Inv _ _ (same-Inv s _ refl refl refl refl refl v)
  act-Inv (sets_parity p) s v =
      apply_native_timeouts-Inv _ (apply_config-Inv _ (same-Inv s _ refl refl refl refl refl v))
  act-Inv (sets_stop_bits b) s v = apply_config-Inv _ (same-Inv s _ refl refl refl refl refl v)
  act-Inv (sets_flow_control f) s v = apply_config-Inv _ (same-Inv s _ refl refl refl refl refl v)
  act-Inv flushes s v = flush-Inv s v
  act-Inv (clears dirs) s v = clear-Inv dirs s v
  act-Inv clears_error s v = same-Inv s _ refl refl refl refl refl v
