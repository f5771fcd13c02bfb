-- ===== src/Asio/ReadLoop.antt =====
-- The read loop: `doRead` and the handler that it gives to asio.
use cross_plaform_serial.Common.{
  take, ℕ, zero, suc, true, false, List, [], ◌∷◌, ◌++◌, ◌≡◌, refl, sym, ◌∙◌, arith, inl, inr,
  Option-cases, some, erase_idx, get_elem?, ◌+◌, ◌≢◌, if◌then◌else◌,
}
use cross_plaform_serial.Types.{resource_error, error_notice}
use cross_plaform_serial.Device.{Device, IsDevice, PortOption}
use cross_plaform_serial.Asio.State.{
  Asio, Completion, is_open, reading, posted, writing, Handler, clear_error,
}
use cross_plaform_serial.Asio.Config.{
  on_open_port, configure, set_raw, apply_config, apply_native_timeouts, set_checked, set_baud_rate,
  set_data_bits, set_parity, set_stop_bits, set_flow_control,
}
use cross_plaform_serial.Asio.Io.{work_at, run_handler, work, work_cases, write, read, flush, clear}
use cross_plaform_serial.Asio.Run.{
  Action, works, writes, reads, sets_baud_rate, sets_data_bits, sets_parity, sets_stop_bits,
  sets_flow_control, flushes, clears, clears_error, act, act_all,
}
use cross_plaform_serial.Asio.Invariant.{same-Inv, Inv, act-Inv}
use cross_plaform_serial.Asio.Closing.{reads_pending, reads_pending-append}

pub reads_pending-erase_eq :
    (hs : List Handler) (i : ℕ) (h : Handler)
    → get_elem? hs i ≡ some h
    → reads_pending hs ≡ reads_pending (h ∷ []) + reads_pending (erase_idx hs i)
reads_pending-erase_eq [] i h e = cc
reads_pending-erase_eq (reading ∷ hs) zero h e = ground arith
reads_pending-erase_eq (posted b ∷ hs) zero h e = ground arith
reads_pending-erase_eq (writing b ∷ hs) zero h e = ground arith
reads_pending-erase_eq (reading ∷ hs) (suc i) h e = ground (arith, reads_pending-erase_eq hs i h)
reads_pending-erase_eq (posted b ∷ hs) (suc i) h e = ground (arith, reads_pending-erase_eq hs i h)
reads_pending-erase_eq (writing b ∷ hs) (suc i) h e = ground (arith, reads_pending-erase_eq hs i h)

module _ {d : Device} where
  -- While the loop runs there is one read in the queue, and else none.
  abbrev pub IsLooping : Asio d → Type 0
  IsLooping s = reads_pending s.pending ≡ (if s.running then 1 else 0)

  -- From `s` to `t` a read failed: the loop ends, the error is ResourceError, and the client is
  -- told of it once if it wants to be told.
  pub record ReadFailed (s t : Asio d) : Type 0 where
    pub stopped : t.running ≡ false
    pub fault : t.error ≡ resource_error
    pub told : t.notices ≡ (
        if s.callbacks.on_error then s.notices ++ (error_notice resource_error ∷ []) else s.notices)
    pub still_open : is_open t ≡ is_open s
    pub kept : t.read_buffer ≡ s.read_buffer

  failed_handler :
      (c : Completion) (s : Asio d)
      → s.running ≡ true
      → c.code ≢ 0
      → ReadFailed s (run_handler reading c s) × ((run_handler reading c s).pending ≡ s.pending)
  unfolding run_handler is_open
  failed_handler c s r n = ground arith

  -- A read that fails while the loop runs ends it with a ResourceError, of which the client is told
  -- once if it has set the callback; the port stays open, the buffer is kept, and no read is
  -- started again.
  pub work-ReadFailed :
      (c : Completion) (s : Asio d)
      → get_elem? s.pending c.handler ≡ some reading
      → s.thread ≡ true
      → s.running ≡ true
      → c.code ≢ 0
      → ReadFailed s (work c s) × ((work c s).pending ≡ erase_idx s.pending c.handler)
  unfolding is_open
  work-ReadFailed c s e t r n = rw (work_at c s reading e t) (
      let (f, p) = failed_handler c (record s { pending = erase_idx s.pending c.handler }) r n in
      (
        record {
          stopped = f.stopped;
          fault = f.fault;
          told = f.told;
          still_open = f.still_open;
          kept = f.kept;
        },
        p,
      ))

  run_handler-IsLooping :
      (h : Handler) (c : Completion) (s : Asio d)
      → Inv s
      → reads_pending (h ∷ []) + reads_pending s.pending ≡ (if s.running then 1 else 0)
      → IsLooping (run_handler h c s)
  unfolding run_handler is_open
  run_handler-IsLooping reading c s v e =
      ground (arith, reads_pending-append s.pending (reading ∷ []))
  run_handler-IsLooping (posted bytes) c s v e =
      ground (arith, reads_pending-append s.pending (writing bytes ∷ []))
  run_handler-IsLooping (writing bytes) c s v e = ground arith

  work-IsLooping : (c : Completion) (s : Asio d) → Inv s → IsLooping s → IsLooping (work c s)
  work-IsLooping c s v l = work_cases IsLooping c s l λ h e _.
      run_handler-IsLooping h c _ (same-Inv s _ refl refl refl refl refl v)
        (sym (reads_pending-erase_eq s.pending c.handler h e) ∙ l)

  on_open_port-IsLooping :
      (body : Asio d → d.Port → d.Port) (s : Asio d) → IsLooping s → IsLooping (on_open_port body s)
  unfolding on_open_port
  on_open_port-IsLooping body s l = elim (Option-cases s.port) [
    | inl g ↦ ground arith
    | inr (p, g) ↦ ground arith
  ]

  set_checked-IsLooping :
      (o : PortOption) (s : Asio d) → IsLooping s → IsLooping (set_checked o s).0
  unfolding set_checked
  set_checked-IsLooping o s l = elim (Option-cases s.port) [
    | inl g ↦ ground arith
    | inr (p, g) ↦ ground arith
  ]

  pub act-IsLooping : (a : Action) (s : Asio d) → Inv s → IsLooping s → IsLooping (act a s)
  unfolding act set_baud_rate set_data_bits set_parity set_stop_bits set_flow_control clear_error
      apply_config apply_native_timeouts
  act-IsLooping (works c) s v l = work-IsLooping c s v l
  act-IsLooping (sets_baud_rate r) s v l = set_checked-IsLooping _ _ l
  act-IsLooping (sets_data_bits b) s v l = set_checked-IsLooping _ _ l
  act-IsLooping (sets_parity p) s v l =
      on_open_port-IsLooping set_raw _
        (on_open_port-IsLooping configure (record s { parity = p }) l)
  act-IsLooping (sets_stop_bits b) s v l = on_open_port-IsLooping configure _ l
  act-IsLooping (sets_flow_control f) s v l = on_open_port-IsLooping configure _ l
  act-IsLooping (writes bytes size) s v l =
      unfold write in ground (arith, reads_pending-append s.pending (posted (take size bytes) ∷ []))
  act-IsLooping (reads out most) s v l = unfold read in ground arith
  act-IsLooping flushes s v l = unfold flush in ground arith
  act-IsLooping (clears dirs) s v l = unfold clear in ground arith
  act-IsLooping clears_error s v l = l

  -- From a state with the invariant in which one read waits if the loop runs and else none, every
  -- sequence of calls and handlers that does not open or close the port leads to such a state
  -- again: the loop is never lost and never doubled.
  pub act_all-IsLooping :
      IsDevice d
      → (acts : List Action) (s : Asio d) → Inv s
      → IsLooping s
      → IsLooping (act_all acts s)
  unfolding act_all
  act_all-IsLooping laws [] s v l = l
  act_all-IsLooping laws (a ∷ acts) s v l =
      act_all-IsLooping laws acts (act a s) (act-Inv laws a s v) (act-IsLooping a s v l)
