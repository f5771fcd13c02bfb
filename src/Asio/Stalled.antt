-- ===== src/Asio/Stalled.antt =====
-- What a failed read leaves for the rest of the session (src/detail/AsioBackend.cpp).
use mathlib.Core.List.{append-nil}
use cross_plaform_serial.Common.{
  true, false, List, [], ◌∷◌, ◌++◌, ◌≡◌, ◌≢◌, refl, sym, ap, ◌∙◌, arith, inl, inr, Option-cases,
  some, get_elem?,
}
use cross_plaform_serial.Device.{Device, IsDevice, PortOption}
use cross_plaform_serial.Asio.State.{
  Asio, Completion, Handler, reading, posted, writing, is_open, clear_error,
}
use cross_plaform_serial.Asio.Io.{run_handler, work, work_cases, write, read, flush, clear}
use cross_plaform_serial.Asio.Config.{
  on_open_port, configure, set_raw, apply_config, apply_native_timeouts, set_checked, set_baud_rate,
  set_data_bits, set_parity, set_stop_bits, set_flow_control,
}
use cross_plaform_serial.Asio.Run.{
  Action, works, writes, reads, sets_baud_rate, sets_data_bits, sets_parity, sets_stop_bits,
  sets_flow_control, flushes, clears, clears_error, act, act_all,
}
use cross_plaform_serial.Asio.Invariant.{Inv, act-Inv}
use cross_plaform_serial.Asio.Closing.{reads_pending}
use cross_plaform_serial.Asio.ReadLoop.{
  IsLooping, ReadFailed, work-ReadFailed, act-IsLooping, reads_pending-erase_eq,
}
use cross_plaform_serial.Asio.Stream.{arriving, arriving_all, available, taken_all, act_all-stream}

module _ {d : Device} where
  -- From `s` to `t` the worker thread stays, and a read loop that has ended stays so.
  abbrev Ended : Asio d → Asio d → Type 0
  Ended s t = (t.thread ≡ s.thread) × (s.running ≡ false → t.running ≡ false)

  run_handler-Ended : (h : Handler) (c : Completion) (s : Asio d) → Ended s (run_handler h c s)
  unfolding run_handler
  run_handler-Ended reading c s = ground arith
  run_handler-Ended (posted bytes) c s = (refl, λ r. r)
  run_handler-Ended (writing bytes) c s = ground arith

  on_open_port-Ended :
      (body : Asio d → d.Port → d.Port) (s : Asio d) → Ended s (on_open_port body s)
  unfolding on_open_port
  on_open_port-Ended body s = elim (Option-cases s.port) [
    | inl g ↦ ground arith
    | inr (p, g) ↦ ground arith
  ]

  set_checked-Ended : (o : PortOption) (s : Asio d) → Ended s (set_checked o s).0
  unfolding set_checked
  set_checked-Ended o s = elim (Option-cases s.port) [
    | inl g ↦ ground arith
    | inr (p, g) ↦ ground arith
  ]

  act-Ended : (a : Action) (s : Asio d) → Ended s (act a s)
  unfolding act set_baud_rate set_data_bits set_parity set_stop_bits set_flow_control clear_error
      apply_config apply_native_timeouts
  act-Ended (works c) s = work_cases (Ended s) c s (refl, λ r. r) (λ h _ _. run_handler-Ended h c _)
  act-Ended (sets_baud_rate r) s = set_checked-Ended _ _
  act-Ended (sets_data_bits b) s = set_checked-Ended _ _
  act-Ended (sets_parity p) s =
      let a = on_open_port-Ended configure (record s { parity = p }) in
      let b = on_open_port-Ended set_raw (on_open_port configure (record s { parity = p })) in
      (b.0 ∙ a.0, λ r. b.1 (a.1 r))
  act-Ended (sets_stop_bits b) s = on_open_port-Ended configure _
  act-Ended (sets_flow_control f) s = on_open_port-Ended configure _
  act-Ended (writes bytes size) s = unfold write in ground arith
  act-Ended (reads out most) s = unfold read in ground arith
  act-Ended flushes s = unfold flush in ground arith
  act-Ended (clears dirs) s = unfold clear in ground arith
  act-Ended clears_error s = (refl, λ r. r)

  -- Without a read in the queue, nothing is delivered.
  arriving_none : (a : Action) (s : Asio d) → reads_pending s.pending ≡ 0 → arriving a s ≡ []
  arriving_none (works c) s n = elim (Option-cases (get_elem? s.pending c.handler)) [
    | inl g ↦ ground arith
    | inr (reading, g) ↦
        absurd (omega (arith, n, reads_pending-erase_eq s.pending c.handler reading g))
    | inr (posted bytes, g) ↦ ground arith
    | inr (writing bytes, g) ↦ ground arith
  ]
  arriving_none a s n = refl

module _ {d : Device} (laws : IsDevice d) where
  -- With the read loop ended, these calls and handlers deliver nothing and start no read, and the
  -- port stays as it is.
  act_all-Ended :
      (acts : List Action) (s : Asio d)
      → Inv s
      → IsLooping s
      → s.running ≡ false
      → let u = act_all acts s in
        Inv u
        × (u.running ≡ false)
        × (reads_pending u.pending ≡ 0)
        × (arriving_all acts s ≡ [])
        × (u.thread ≡ s.thread)
  unfolding act_all
  act_all-Ended [] s v l r = (v, r, l ∙ rw r refl, refl, refl)
  act_all-Ended (a ∷ acts) s v l r =
      let t = act a s in
      let (h, k) = act-Ended a s in
      let (v', r', n, none_more, h') =
        act_all-Ended acts t (act-Inv laws a s v) (act-IsLooping a s v l) (k r) in
      let first : arriving a s ≡ [] = arriving_none a s (l ∙ rw r refl) in
      (v', r', n, rw (first, none_more) refl, h' ∙ h)

  -- A read that fails in a session ends its reading for good, on a port that stays open. From a
  -- state with the invariant and a running read loop: when the read that waits fails, the loop ends
  -- with a ResourceError, of which the client is told once if it has set the callback. After that,
  -- whatever calls other than open and close and whatever handlers follow, the port is still open,
  -- no read waits, the device delivers nothing, and what the client reads and what is left in the
  -- buffer are together the bytes that had been buffered when the read failed.
  pub work_stalled :
      (c : Completion) (s : Asio d) (acts : List Action)
      → Inv s
      → IsLooping s
      → s.running ≡ true
      → get_elem? s.pending c.handler ≡ some reading
      → c.code ≢ 0
      → let t = work c s in
        let u = act_all acts t in
        ReadFailed s t
        × (is_open u ≡ true)
        × (u.running ≡ false)
        × (reads_pending u.pending ≡ 0)
        × (arriving_all acts t ≡ [])
        × (taken_all acts t ++ available u ≡ available s)
  work_stalled c s acts v l r e n =
      let t = work c s in
      let (f, p) = work-ReadFailed c s e (v.running_thread r) r n in
      let h : Inv t = unfold act in act-Inv laws (works c) s v in
      let k : IsLooping t = unfold act in act-IsLooping (works c) s v l in
      let (w, stopped, no_read, nothing, same) = act_all-Ended acts t h k f.stopped in
      (
        f,
        w.thread_open
            ∙ same
            ∙ sym h.thread_open
            ∙ f.still_open
            ∙ v.thread_open
            ∙ v.running_thread r,
        stopped,
        no_read,
        nothing,
        act_all-stream acts t
            ∙ ap (λ xs. available t ++ xs) nothing
            ∙ append-nil (available t)
            ∙ ap (λ b. b.buf) f.kept,
      )
