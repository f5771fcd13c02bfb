-- ===== src/ReadBuffer/Fifo.antt =====
-- The read buffer as a first-in first-out queue of bytes.
use mathlib.Core.List.{append-nil, append_assoc}
use cross_plaform_serial.Common.{
  ℕ, Bytes, List, [], ◌∷◌, ◌++◌, ◌≡◌, sym, ◌∙◌, ap, min, arith, length, take, drop,
  take-append-drop, take-all, drop-all,
}
use cross_plaform_serial.ReadBuffer.{ReadBuffer, push, pop, Call, pushes, pops, run}

take-length : (xs : Bytes) → take (length xs) xs ≡ xs
take-length xs = take-all (length xs) xs (omega arith)

pub buf-push : (xs : Bytes) (b : ReadBuffer) → (push xs (length xs) b).buf ≡ b.buf ++ xs
unfolding push
buf-push xs b = rw (take-length xs)

-- A pop returns the oldest bytes, as many as there are up to the limit, says how many, and
-- leaves the rest: nothing is lost, doubled or reordered.
pub pop_lem :
    (most : ℕ) (b : ReadBuffer)
    → ((pop most b).1 ≡ take most b.buf)
      × ((pop most b).2.buf ≡ drop most b.buf)
      × ((pop most b).0 ≡ min most (length b.buf))
unfolding pop
pop_lem most b = ground (
  arith,
  take-all most b.buf,
  drop-all most b.buf,
  take-length b.buf,
  drop-all (length b.buf) b.buf,
)

-- The bytes that the buffer is given, in order.
abbrev pub pushed : List Call → Bytes
pushed [] = []
pushed (pushes bytes ∷ calls) = bytes ++ pushed calls
pushed (pops most ∷ calls) = pushed calls

-- Over any sequence of pushes and pops, what was popped followed by what is left is what there was at the
-- start followed by what was pushed.
run_fifo :
    (calls : List Call) (b : ReadBuffer)
    → (run calls b).0 ++ (run calls b).1.buf ≡ b.buf ++ pushed calls
unfolding run
run_fifo [] b = sym (append-nil b.buf)
run_fifo (pushes bytes ∷ calls) b =
    run_fifo calls (push bytes (length bytes) b)
    ∙ rw (buf-push bytes b) (append_assoc b.buf bytes (pushed calls))
run_fifo (pops most ∷ calls) b =
    append_assoc (pop most b).1 (run calls (pop most b).2).0 (run calls (pop most b).2).1.buf
    ∙ ap (◌++◌ (pop most b).1) (run_fifo calls (pop most b).2)
    ∙ rw ((pop_lem most b).0, (pop_lem most b).1, ← append_assoc) (rw (take-append-drop most b.buf))
