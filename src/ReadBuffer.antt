-- ===== src/ReadBuffer.antt =====
-- src/detail/ReadBuffer.hpp: the bytes that the worker has read and the client has not taken.
-- Every method holds the mutex for its whole body, so a method is one step of the model.
pub mod Fifo
use cross_plaform_serial.Common.{
  ℕ, Bytes, List, [], ◌∷◌, ◌++◌, length, take, drop, ltb, ◌==◌, if◌then◌else◌,
}

pub record ReadBuffer : Type 0 where
  pub buf : Bytes

unfoldable pub new : ReadBuffer
new = record { buf = [] }

-- `buf_.insert(buf_.end(), data, data + size)`
unfoldable pub push : Bytes → ℕ → ReadBuffer → ReadBuffer
push bytes n b = record { buf = b.buf ++ take n bytes }

-- The count, the bytes written to `out`, and the buffer that is left.
unfoldable pub pop : ℕ → ReadBuffer → ℕ × Bytes × ReadBuffer
pop most b =
    let n = if ltb (length b.buf) most then length b.buf else most in
    if n == 0 then (n, [], b) else (n, take n b.buf, record { buf = drop n b.buf })

unfoldable pub size : ReadBuffer → ℕ
size b = length b.buf

unfoldable pub clear : ReadBuffer → ReadBuffer
clear b = record { buf = [] }

-- A sequence of calls by any threads, in the order in which they take the mutex.
pub data Call : Type 0 where
  pushes : Bytes → Call
  pops : ℕ → Call

-- The buffer after the calls, with all that the `pop` calls returned, in order.
unfoldable pub run : List Call → ReadBuffer → Bytes × ReadBuffer
run [] b = ([], b)
run (pushes bytes ∷ calls) b = run calls (push bytes (length bytes) b)
run (pops most ∷ calls) b =
    let (n, out, rest) = pop most b in let (outs, last) = run calls rest in (out ++ outs, last)
