-- ===== src/Asio/Progress.antt =====
-- The queued writes while the worker thread runs.
use cross_plaform_serial.Common.{
  ◌≢◌, ℕ, zero, suc, true, List, [], ◌∷◌, ◌++◌, ◌≡◌, refl, ◌∙◌, arith, some, erase_idx, get_elem?,
  ◌+◌, length, pos,
}
use cross_plaform_serial.Device.{Device, ErrorCode}
use cross_plaform_serial.Asio.State.{Asio, Completion, reading, posted, writing, Handler}
use cross_plaform_serial.Asio.Io.{run_handler, work, work_all, work_at, bytes_to_write}
use cross_plaform_serial.Asio.Counting.{work-Counts, outstanding, Counts}

-- How many handlers have to run until no write waits: a posted function starts one more.
abbrev pub rounds : List Handler → ℕ
rounds [] = 0
rounds (reading ∷ hs) = rounds hs
rounds (posted bytes ∷ hs) = suc (suc (rounds hs))
rounds (writing bytes ∷ hs) = suc (rounds hs)

rounds-append : (hs ks : List Handler) → rounds (hs ++ ks) ≡ rounds hs + rounds ks
rounds-append [] ks = omega arith
rounds-append (reading ∷ hs) ks = rounds-append hs ks
rounds-append (posted bytes ∷ hs) ks = omega (arith, rounds-append hs ks)
rounds-append (writing bytes ∷ hs) ks = omega (arith, rounds-append hs ks)

-- The place of the first write.
abbrev pub first_write : List Handler → ℕ
first_write [] = 0
first_write (reading ∷ hs) = suc (first_write hs)
first_write (posted bytes ∷ hs) = 0
first_write (writing bytes ∷ hs) = 0

outstanding-rounds : (hs : List Handler) → rounds hs ≡ 0 → outstanding hs ≡ 0
outstanding-rounds [] e = refl
outstanding-rounds (reading ∷ hs) e = omega (arith, outstanding-rounds hs e)
outstanding-rounds (posted bytes ∷ hs) e = absurd (omega arith)
outstanding-rounds (writing bytes ∷ hs) e = absurd (omega arith)

-- The write that is found there, and what is left in the queue.
pub record Found (hs : List Handler) (h : Handler) : Type 0 where
  pub there : get_elem? hs (first_write hs) ≡ some h
  pub lighter : rounds (erase_idx hs (first_write hs)) + rounds (h ∷ []) ≡ rounds hs
  pub no_read : h ≢ reading

found : (n : ℕ) (hs : List Handler) → rounds hs ≡ suc n → (h : Handler) × Found hs h
found n [] e = absurd (omega arith)
found n (reading ∷ hs) e =
    let (h, f) = found n hs e in
    (h, record { there = f.there; lighter = f.lighter; no_read = f.no_read })
found n (posted bytes ∷ hs) e =
    (posted bytes, record { there = refl; lighter = omega arith; no_read = λ q. cc })
found n (writing bytes ∷ hs) e =
    (writing bytes, record { there = refl; lighter = omega arith; no_read = λ q. cc })

module _ {d : Device} (code : ErrorCode) (written : ℕ) where
  -- The worker runs the handler of the first write, with this outcome.
  abbrev pub turn : Asio d → Completion
  turn s = record { handler = first_write s.pending; code = code; arrived = []; written = written }

  abbrev pub turns : ℕ → Asio d → List Completion
  turns zero s = []
  turns (suc n) s = turn s ∷ turns n (work (turn s) s)

  run_handler-rounds :
      (h : Handler) (c : Completion) (s : Asio d)
      → h ≢ reading
      → (suc (rounds (run_handler h c s).pending) ≡ rounds s.pending + rounds (h ∷ []))
        × ((run_handler h c s).thread ≡ s.thread)
  unfolding run_handler
  run_handler-rounds reading c s n = absurd (n refl)
  run_handler-rounds (posted bytes) c s n =
      ground (arith, rounds-append s.pending (writing bytes ∷ []))
  run_handler-rounds (writing bytes) c s n = ground arith

  work-rounds :
      (n : ℕ) (s : Asio d)
      → s.thread ≡ true
      → rounds s.pending ≡ suc n
      → (rounds (work (turn s) s).pending ≡ n) × ((work (turn s) s).thread ≡ true)
  work-rounds n s t e =
      let (h, f) = found n s.pending e in
      let t' = record s { pending = erase_idx s.pending (first_write s.pending) } in
      let (r, k) = run_handler-rounds h (turn s) t' f.no_read in
      rw (work_at (turn s) s h f.there t) (omega (arith, r, e, f.lighter), k ∙ t)

  drained :
      (n : ℕ) (s : Asio d)
      → s.thread ≡ true
      → rounds s.pending ≡ n
      → rounds (work_all (turns n s) s).pending ≡ 0
  unfolding work_all
  drained zero s t e = e
  drained (suc n) s t e = let (r, k) = work-rounds n s t e in drained n (work (turn s) s) k r

  length-turns : (n : ℕ) (s : Asio d) → length (turns n s) ≡ n
  length-turns zero s = refl
  length-turns (suc n) s = omega (arith, length-turns n (work (turn s) s))

  work_all-Counts : (cs : List Completion) (s : Asio d) → Counts 0 s → Counts 0 (work_all cs s)
  unfolding work_all
  work_all-Counts [] s k = k
  work_all-Counts (c ∷ cs) s k = work_all-Counts cs (work c s) (work-Counts 0 c s k)

  empty-bytes_to_write :
      (s : Asio d) → Counts 0 s → outstanding s.pending ≡ 0 → bytes_to_write s ≡ pos 0
  unfolding bytes_to_write
  empty-bytes_to_write s k e = let z : s.bytes_to_write ≡ 0 = omega (arith, k, e) in rw z refl

  -- As long as there is a worker thread and the counter is the number of the bytes that wait, every
  -- write comes to its end, whatever outcome the device reports: running the handlers of the
  -- writes, two for each that is posted and one for each that is being written, leaves no byte
  -- waiting in the queue, and `bytesToWrite` is 0.
  pub work_all-drained :
      (s : Asio d)
      → s.thread ≡ true
      → Counts 0 s
      → let cs = turns (rounds s.pending) s in
        (length cs ≡ rounds s.pending)
        × (outstanding (work_all cs s).pending ≡ 0)
        × (bytes_to_write (work_all cs s) ≡ pos 0)
  work_all-drained s t k =
      let n = rounds s.pending in
      let cs = turns n s in
      let e = outstanding-rounds _ (drained n s t refl) in
      (length-turns n s, e, empty-bytes_to_write (work_all cs s) (work_all-Counts cs s k) e)
