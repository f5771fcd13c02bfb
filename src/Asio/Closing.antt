-- ===== src/Asio/Closing.antt =====
-- What `AsioBackend::close` leaves behind, whatever the worker does before it is joined.
use mathlib.Core.List.{append-nil}
use cross_plaform_serial.Common.{
  signed64, ℕ, zero, true, false, List, [], ◌∷◌, ◌++◌, ◌≡◌, refl, ◌∙◌, ap, arith, inl, inr,
  Option-cases, erase_idx, ◌≤◌, ◌+◌, suc,
}
use cross_plaform_serial.Types.{SerialError, Notice, ready_read, bytes_written, error_notice}
use cross_plaform_serial.Device.{Device, IsDevice}
use cross_plaform_serial.Asio.State.{Asio, Completion, is_open, reading, posted, writing, Handler}
use cross_plaform_serial.Asio.Io.{run_handler, work, work_all, work_cases}
use cross_plaform_serial.Asio.Lifecycle.{begin_close, end_close, close}

-- The errors that the client was told of, in order.
abbrev pub errors : List Notice → List SerialError
errors [] = []
errors (error_notice e ∷ ns) = e ∷ errors ns
errors (ready_read ∷ ns) = errors ns
errors (bytes_written n ∷ ns) = errors ns

errors-append : (ns ms : List Notice) → errors (ns ++ ms) ≡ errors ns ++ errors ms
errors-append [] ms = refl
errors-append (error_notice e ∷ ns) ms = ap (◌∷◌ e) (errors-append ns ms)
errors-append (ready_read ∷ ns) ms = errors-append ns ms
errors-append (bytes_written n ∷ ns) ms = errors-append ns ms

-- How many reads are waiting.
abbrev pub reads_pending : List Handler → ℕ
reads_pending [] = 0
reads_pending (reading ∷ hs) = suc (reads_pending hs)
reads_pending (posted b ∷ hs) = reads_pending hs
reads_pending (writing b ∷ hs) = reads_pending hs

pub reads_pending-append :
    (hs ks : List Handler) → reads_pending (hs ++ ks) ≡ reads_pending hs + reads_pending ks
reads_pending-append [] ks = omega arith
reads_pending-append (reading ∷ hs) ks = omega (arith, reads_pending-append hs ks)
reads_pending-append (posted b ∷ hs) ks = reads_pending-append hs ks
reads_pending-append (writing b ∷ hs) ks = reads_pending-append hs ks

pub reads_pending-erase_idx :
    (hs : List Handler) (i : ℕ) → reads_pending (erase_idx hs i) ≤ reads_pending hs
reads_pending-erase_idx [] i = omega arith
reads_pending-erase_idx (reading ∷ hs) zero = omega arith
reads_pending-erase_idx (posted b ∷ hs) zero = omega arith
reads_pending-erase_idx (writing b ∷ hs) zero = omega arith
reads_pending-erase_idx (reading ∷ hs) (suc i) = omega (arith, reads_pending-erase_idx hs i)
reads_pending-erase_idx (posted b ∷ hs) (suc i) = reads_pending-erase_idx hs i
reads_pending-erase_idx (writing b ∷ hs) (suc i) = reads_pending-erase_idx hs i

no_error_told :
    (ns : List Notice) (n : Notice) → errors (n ∷ []) ≡ [] → errors (ns ++ (n ∷ [])) ≡ errors ns
no_error_told ns n e = errors-append ns (n ∷ []) ∙ rw e (append-nil (errors ns))

module _ {d : Device} where
  -- From `s` to `t` the client was told of no error, the error is as it was, and the port is being
  -- closed with the read loop stopped.
  pub record Quiet (s t : Asio d) : Type 0 where
    pub stopped : t.running ≡ false
    pub marked : t.closing ≡ true
    pub same_error : t.error ≡ s.error
    pub same_errors : errors t.notices ≡ errors s.notices
    pub reads : reads_pending t.pending ≤ reads_pending s.pending

  run_handler-Quiet :
      (h : Handler) (c : Completion) (s t : Asio d) → Quiet s t → Quiet s (run_handler h c t)
  unfolding run_handler
  run_handler-Quiet reading c s t q = ground (arith, no_error_told t.notices ready_read)
  run_handler-Quiet (posted bytes) c s t q =
      ground (arith, reads_pending-append t.pending (writing bytes ∷ []))
  run_handler-Quiet (writing bytes) c s t q =
      ground (arith, no_error_told t.notices (bytes_written (signed64 c.written)))

  work-Quiet : (c : Completion) (s t : Asio d) → Quiet s t → Quiet s (work c t)
  work-Quiet c s t q = work_cases (Quiet s) c t q λ h e _. run_handler-Quiet h c s _ (record {
    stopped = q.stopped;
    marked = q.marked;
    same_error = q.same_error;
    same_errors = q.same_errors;
    reads = omega (arith, q.reads, reads_pending-erase_idx t.pending c.handler);
  })

  work_all-Quiet : (cs : List Completion) (s t : Asio d) → Quiet s t → Quiet s (work_all cs t)
  unfolding work_all
  work_all-Quiet [] s t q = q
  work_all-Quiet (c ∷ cs) s t q = work_all-Quiet cs s (work c t) (work-Quiet c s t q)

  begin_close-Quiet : (s : Asio d) → Quiet s (begin_close s)
  unfolding begin_close
  begin_close-Quiet s = elim (Option-cases s.port) [
    | inl e ↦ ground arith
    | inr (p, e) ↦ ground arith
  ]

  end_close-Quiet : (s t : Asio d) → Quiet s t → Quiet s (end_close t)
  unfolding end_close
  end_close-Quiet s t q = elim (Option-cases t.port) [
    | inl e ↦ ground arith
    | inr (p, e) ↦ ground arith
  ]

  -- Whatever handlers the worker still runs before it is joined, a `close` tells the client of no
  -- error, leaves the last error alone, stops the read loop and starts no read.
  pub close-Quiet : (last : List Completion) (s : Asio d) → Quiet s (close last s)
  unfolding close
  close-Quiet last s = end_close-Quiet s _ (work_all-Quiet last s _ (begin_close-Quiet s))

  -- The members that `close` resets.
  pub record Shut (s : Asio d) : Type 0 where
    pub port_closed : is_open s ≡ false
    pub joined : s.thread ≡ false
    pub unguarded : s.guard ≡ false
    pub drained : s.read_buffer.buf ≡ []
    pub counted : s.bytes_to_write ≡ 0

  pub end_close-Shut : IsDevice d → (s : Asio d) → Shut (end_close s)
  unfolding end_close is_open
  end_close-Shut laws s = elim (Option-cases s.port) [
    | inl e ↦ ground arith
    | inr (p, e) ↦ ground (arith, laws.close_closed p)
  ]

  -- Whatever handlers the worker still runs before it is joined, a `close` leaves the port closed,
  -- no worker thread and no work guard, an empty read buffer and a counter of 0.
  pub close-Shut : IsDevice d → (last : List Completion) (s : Asio d) → Shut (close last s)
  unfolding close
  close-Shut laws last s = end_close-Shut laws (work_all last (begin_close s))
