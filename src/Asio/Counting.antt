-- ===== src/Asio/Counting.antt =====
-- `bytesToWrite_` against the buffers that wait in the queue of the `io_context`.
use cross_plaform_serial.Common.{
  ℕ, zero, suc, Bytes, List, [], ◌∷◌, ◌++◌, ◌≡◌, arith, inl, inr, Option-cases, some, erase_idx,
  get_elem?, ◌+◌, ◌%◌, ◌^◌, length, take,
}
use cross_plaform_serial.Device.{Device, PortOption}
use cross_plaform_serial.Asio.State.{
  Asio, Completion, reading, posted, writing, Handler, clear_error,
}
use cross_plaform_serial.Asio.Config.{
  on_open_port, configure, set_raw, apply_config, apply_native_timeouts, set_checked, set_baud_rate,
  set_data_bits, set_parity, set_stop_bits, set_flow_control,
}
use cross_plaform_serial.Asio.Io.{run_handler, work, work_cases, write, read, flush, clear}
use cross_plaform_serial.Asio.Run.{
  Action, works, writes, reads, sets_baud_rate, sets_data_bits, sets_parity, sets_stop_bits,
  sets_flow_control, flushes, clears, clears_error, act, act_all,
}

-- The bytes of a handler that are not written yet, and of all handlers that wait.
abbrev pub unwritten : Handler → ℕ
unwritten reading = 0
unwritten (posted bytes) = length bytes
unwritten (writing bytes) = length bytes

abbrev pub outstanding : List Handler → ℕ
outstanding [] = 0
outstanding (h ∷ hs) = unwritten h + outstanding hs

outstanding-append :
    (hs : List Handler) (h : Handler) → outstanding (hs ++ (h ∷ [])) ≡ outstanding hs + unwritten h
outstanding-append [] h = omega arith
outstanding-append (x ∷ hs) h = omega (arith, outstanding-append hs h)

outstanding-erase_idx :
    (hs : List Handler) (i : ℕ) (h : Handler)
    → get_elem? hs i ≡ some h
    → outstanding hs ≡ unwritten h + outstanding (erase_idx hs i)
outstanding-erase_idx [] i h e = cc
outstanding-erase_idx (x ∷ hs) zero h e = ground arith
outstanding-erase_idx (x ∷ hs) (suc i) h e = omega (arith, outstanding-erase_idx hs i h e)

module _ {d : Device} where
  -- The counter is the number of bytes that wait and `k`, as a 64-bit pattern.
  abbrev pub Counts : ℕ → Asio d → Type 0
  Counts k s = s.bytes_to_write ≡ (outstanding s.pending + k) % 2 ^ 64

  run_handler-Counts :
      (k : ℕ) (h : Handler) (c : Completion) (s : Asio d)
      → s.bytes_to_write ≡ (unwritten h + outstanding s.pending + k) % 2 ^ 64
      → Counts k (run_handler h c s)
  unfolding run_handler
  run_handler-Counts k reading c s e = ground (arith, outstanding-append s.pending reading)
  run_handler-Counts k (posted bytes) c s e =
      ground (arith, outstanding-append s.pending (writing bytes))
  run_handler-Counts k (writing bytes) c s e = ground arith

  pub work-Counts : (k : ℕ) (c : Completion) (s : Asio d) → Counts k s → Counts k (work c s)
  work-Counts k c s e = work_cases (Counts k) c s e λ h g _.
      run_handler-Counts k h c _ (omega (arith, outstanding-erase_idx s.pending c.handler h g))

  write-Counts :
      (k : ℕ) (bytes : Bytes) (size : ℕ) (s : Asio d) → Counts k s → Counts k (write bytes size s).0
  unfolding write
  write-Counts k bytes size s e =
      ground (arith, outstanding-append s.pending (posted (take size bytes)))

  on_open_port-Counts :
      (k : ℕ) (body : Asio d → d.Port → d.Port) (s : Asio d)
      → Counts k s
      → Counts k (on_open_port body s)
  unfolding on_open_port
  on_open_port-Counts k body s e = elim (Option-cases s.port) [
    | inl g ↦ ground arith
    | inr (p, g) ↦ ground arith
  ]

  set_checked-Counts :
      (k : ℕ) (o : PortOption) (s : Asio d) → Counts k s → Counts k (set_checked o s).0
  unfolding set_checked
  set_checked-Counts k o s e = elim (Option-cases s.port) [
    | inl g ↦ ground arith
    | inr (p, g) ↦ ground arith
  ]

  act-Counts : (k : ℕ) (a : Action) (s : Asio d) → Counts k s → Counts k (act a s)
  unfolding act set_baud_rate set_data_bits set_parity set_stop_bits set_flow_control clear_error
      apply_config apply_native_timeouts
  act-Counts k (works c) s e = work-Counts k c s e
  act-Counts k (writes bytes size) s e = write-Counts k bytes size s e
  act-Counts k (reads out most) s e = unfold read in ground arith
  act-Counts k (sets_baud_rate r) s e = set_checked-Counts k _ _ e
  act-Counts k (sets_data_bits b) s e = set_checked-Counts k _ _ e
  act-Counts k (sets_parity p) s e =
      on_open_port-Counts k set_raw _ (on_open_port-Counts k configure (record s { parity = p }) e)
  act-Counts k (sets_stop_bits b) s e = on_open_port-Counts k configure _ e
  act-Counts k (sets_flow_control f) s e = on_open_port-Counts k configure _ e
  act-Counts k flushes s e = unfold flush in ground arith
  act-Counts k (clears dirs) s e = unfold clear in ground arith
  act-Counts k clears_error s e = e

  -- Through every sequence of calls and handlers that does not open or close the port, the counter
  -- and the bytes that wait in the queue keep their difference `k`, modulo 2 ^ 64.
  pub act_all-Counts :
      (k : ℕ) (acts : List Action) (s : Asio d) → Counts k s → Counts k (act_all acts s)
  unfolding act_all
  act_all-Counts k [] s e = e
  act_all-Counts k (a ∷ acts) s e = act_all-Counts k acts (act a s) (act-Counts k a s e)
