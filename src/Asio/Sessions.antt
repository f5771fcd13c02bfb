-- ===== src/Asio/Sessions.antt =====
-- Sessions: what happens between a successful `open` and the next `close`, with and without
-- handlers that an earlier session left in the queue.
use cross_plaform_serial.Common.{
  ℕ, Bytes, Bool, true, false, List, [], ◌∷◌, ◌++◌, ◌≡◌, ◌∙◌, ap, arith, inl, inr, some, get_elem?,
  ◌≢◌, length, ◌<◌, ◌-◌, ◌^◌, negsuc, ◌%◌,
}
use cross_plaform_serial.Types.{OpenMode, resource_error}
use cross_plaform_serial.Device.{Device, IsDevice}
use cross_plaform_serial.Asio.State.{Asio, Completion, is_open, reading, writing, Handler, new}
use cross_plaform_serial.Asio.Io.{work, work_at, bytes_to_write, run_handler}
use cross_plaform_serial.Asio.Lifecycle.{open_port}
use cross_plaform_serial.Asio.Run.{Action, act_all}
use cross_plaform_serial.Asio.Invariant.{Inv}
use cross_plaform_serial.Asio.Reachable.{open_port-Inv}
use cross_plaform_serial.Asio.Closing.{Shut, reads_pending}
use cross_plaform_serial.Asio.Counting.{outstanding, act_all-Counts}
use cross_plaform_serial.Asio.Stream.{available, taken_all, arriving_all, act_all-stream}
use cross_plaform_serial.Asio.ReadLoop.{IsLooping, act_all-IsLooping, work-ReadFailed}
use cross_plaform_serial.Asio.Reopen.{Opened, OpenOutcome, open_code, open_port-OpenOutcome}

module _ {d : Device} where
  pub new-Shut : Shut (new {d = d})
  unfolding new is_open
  new-Shut = ground arith

  -- Asio accepted the name, so the call succeeded.
  accepted :
      (s : Asio d) (r : Asio d × Bool) (ec : ℕ)
      → ec ≡ 0
      → OpenOutcome ec s r
      → (r.1 ≡ true) × Opened s r.0
  accepted s r ec z (inl (t, e, o)) = (t, o)
  accepted s r ec z (inr (t, e, o)) = absurd (e z)

  succeeded :
      (s : Asio d) (r : Asio d × Bool) (ec : ℕ) → r.1 ≡ true → OpenOutcome ec s r → Opened s r.0
  succeeded s r ec g (inl (t, e, o)) = o
  succeeded s r ec g (inr (t, e, o)) = cc

  first_handler :
      (t : Asio d) (h : Handler) (hs : List Handler) (c : Completion)
      → t.pending ≡ h ∷ hs
      → c.handler ≡ 0
      → get_elem? t.pending c.handler ≡ some h
  first_handler t h hs c e i = rw (e, i)

  uncounted :
      (bytes : Bytes) (c : Completion) (s : Asio d)
      → s.bytes_to_write ≡ 0
      → 0 < length bytes
      → length bytes < 2 ^ 63
      → bytes_to_write (run_handler (writing bytes) c s) ≡ negsuc (length bytes - 1)
  unfolding bytes_to_write run_handler
  uncounted bytes c s z l u = ground arith

  -- If the invariant holds, the port is shut and no handler waits, then after a successful open and
  -- any sequence of calls and handlers that does not open or close: the counter is the number of
  -- bytes that were written and wait in the queue, modulo 2 ^ 64; one read waits while the loop
  -- runs and else none; and the bytes that the client has read and can read are those that the
  -- device delivered, in order.
  pub clean_session :
      IsDevice d
      → (last : List Completion) (name : Bytes) (mode : OpenMode) (acts : List Action) (s : Asio d)
      → Inv s
      → Shut s
      → s.pending ≡ []
      → (open_port last name mode s).1 ≡ true
      → let t = (open_port last name mode s).0 in
        ((act_all acts t).bytes_to_write ≡ outstanding (act_all acts t).pending % 2 ^ 64)
        × IsLooping (act_all acts t)
        × (taken_all acts t ++ available (act_all acts t) ≡ arriving_all acts t)
  clean_session laws last name mode acts s v h e g =
      let t = (open_port last name mode s).0 in
      let o = succeeded s _ _ g (open_port-OpenOutcome laws last name mode s h.port_closed) in
      let started = o.armed ∙ ap (λ hs. hs ++ (reading ∷ [])) e in
      let empty = ap (λ b. b.buf) o.kept.1 ∙ h.drained in
      (
        act_all-Counts 0 acts t (omega (arith, o.kept.0, h.counted, ap outstanding started))
            ∙ omega arith,
        act_all-IsLooping laws acts t (open_port-Inv laws last name mode s v)
            (ap reads_pending started ∙ rw o.started.0),
        act_all-stream acts t ∙ ap (λ bs. bs ++ arriving_all acts t) empty,
      )

  -- If a shut backend still has the read of an earlier session at the head of its queue and asio
  -- accepts the name, then the handler of that read, run with an error code, stops the read loop of
  -- the new session and sets ResourceError, while the port stays open.
  pub stale_read :
      IsDevice d
      → (last : List Completion) (name : Bytes) (mode : OpenMode) (s : Asio d) (hs : List Handler)
      → (c : Completion) → Shut s
      → s.pending ≡ reading ∷ hs
      → open_code name s ≡ 0
      → c.handler ≡ 0
      → c.code ≢ 0
      → let t = (open_port last name mode s).0 in
        (t.running ≡ true)
        × ((work c t).running ≡ false)
        × ((work c t).error ≡ resource_error)
        × (is_open (work c t) ≡ true)
  stale_read laws last name mode s hs c h e z i n =
      let t = (open_port last name mode s).0 in
      let o = (accepted s _ _ z (open_port-OpenOutcome laws last name mode s h.port_closed)).1 in
      let f =
        work-ReadFailed c t (first_handler t _ _ c (o.armed ∙ ap (λ ks. ks ++ (reading ∷ [])) e) i)
          o.started.2 o.started.0 n in
      (o.started.0, f.0.stopped, f.0.fault, f.0.still_open ∙ o.port_open)

  -- If a shut backend still has the write of an earlier session at the head of its queue and asio
  -- accepts the name, then running its handler in the new session makes `bytesToWrite` negative:
  -- minus the length of that write, for a length from 1 to 2 ^ 63 - 1.
  pub stale_write :
      IsDevice d
      → (last : List Completion) (name : Bytes) (mode : OpenMode) (s : Asio d) (hs : List Handler)
      → (bytes : Bytes) (c : Completion) → Shut s
      → s.pending ≡ writing bytes ∷ hs
      → open_code name s ≡ 0
      → c.handler ≡ 0
      → 0 < length bytes
      → length bytes < 2 ^ 63
      → bytes_to_write (work c (open_port last name mode s).0) ≡ negsuc (length bytes - 1)
  stale_write laws last name mode s hs bytes c h e z i l u =
      let t = (open_port last name mode s).0 in
      let o = (accepted s _ _ z (open_port-OpenOutcome laws last name mode s h.port_closed)).1 in
      rw
        (work_at c t (writing bytes)
          (first_handler t _ _ c (o.armed ∙ ap (λ ks. ks ++ (reading ∷ [])) e) i) o.started.2)
        (uncounted bytes c _ (o.kept.0 ∙ h.counted) l u)
