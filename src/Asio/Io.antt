-- ===== src/Asio/Io.antt =====
-- Reading and writing in `AsioBackend`: what a client's call does at once, and what the handlers
-- do later on the worker thread.
use Prim.Native.Nat.{bit_and, bit_or}
use cross_plaform_serial.Common.{
  refl, true, ◌≡◌, inl, inr, Option-cases, if-cases, ℕ, ℤ, Bytes, Bool, false, not, ◌&&◌, List, [],
  ◌∷◌, ◌++◌, none, some, ◌==◌, ltb, if◌then◌else◌, length, take, get_elem?, erase_idx, add64, sub64,
  signed64, minus_one,
}
use cross_plaform_serial.Types.{
  Directions, directions_value, not_open_error, resource_error, ready_read, bytes_written,
}
use cross_plaform_serial.ReadBuffer
use cross_plaform_serial.Device.{Device}
use cross_plaform_serial.Asio.State.{
  Asio, Handler, reading, posted, writing, Completion, is_open, set_error, call_if, notify_error,
}

-- The queue selectors of <termios.h> on Linux.
abbrev tciflush : ℕ
tciflush = 0

abbrev tcoflush : ℕ
tcoflush = 1

-- `q` of `AsioBackend::clear`: the two tests, each or-ing its selector in.
unfoldable pub flush_selector : Directions → ℕ
flush_selector dirs =
    let q = if bit_and (directions_value dirs) 1 == 0 then 0 else bit_or 0 tciflush in
    if bit_and (directions_value dirs) 2 == 0 then q else bit_or q tcoflush

module _ {d : Device} where
  -- Hands a handler to the `io_context`.
  unfoldable pub enqueue : Handler → Asio d → Asio d
  enqueue h s = record s { pending = s.pending ++ (h ∷ []) }

  unfoldable pub do_read : Asio d → Asio d
  unfolding is_open enqueue
  do_read s = if s.running && is_open s then enqueue reading s else s

  -- The handler of `async_read_some`: the bytes are `readScratch_[0 .. n)`.
  unfoldable pub read_handler : Completion → Asio d → Asio d
  unfolding notify_error call_if do_read ReadBuffer.push
  read_handler c s =
      let failed = if s.running then notify_error resource_error s else s in
      let n = length c.arrived in
      let stored = record s { read_buffer = ReadBuffer.push c.arrived n s.read_buffer } in
      let told = call_if s.callbacks.on_ready_read ready_read stored in
      if not (c.code == 0)
      then record failed { running = false }
      else if n == 0
      then do_read s
      else do_read told

  -- The handler of `async_write` for the buffer that `write` made.
  unfoldable pub write_handler : Bytes → Completion → Asio d → Asio d
  unfolding notify_error call_if
  write_handler bytes c s =
      let t = record s { bytes_to_write = sub64 s.bytes_to_write (length bytes) } in
      if not (c.code == 0)
      then (if s.closing then t else notify_error resource_error t)
      else call_if (s.callbacks.on_bytes_written && ltb 0 c.written)
          (bytes_written (signed64 c.written)) t

  -- The posted function starts the `async_write`.
  unfoldable pub run_handler : Handler → Completion → Asio d → Asio d
  unfolding read_handler write_handler enqueue
  run_handler reading c s = read_handler c s
  run_handler (posted bytes) c s = enqueue (writing bytes) s
  run_handler (writing bytes) c s = write_handler bytes c s

  -- `io_->run()` takes one handler out of the queue and calls it. Without a worker thread, or
  -- with no handler at that place, nothing happens.
  unfoldable pub work : Completion → Asio d → Asio d
  work c s = elim (get_elem? s.pending c.handler) [
    | none ↦ s
    | some h ↦
        if s.thread
        then run_handler h c (record s { pending = erase_idx s.pending c.handler })
        else s
  ]

  unfoldable pub work_all : List Completion → Asio d → Asio d
  work_all [] s = s
  work_all (c ∷ cs) s = work_all cs (work c s)

  -- `data` is the memory at the pointer; its first `size` bytes are copied into the buffer.
  unfoldable pub write : Bytes → ℕ → Asio d → Asio d × ℤ
  unfolding is_open set_error enqueue
  write bytes size s =
      let buffer = take size bytes in
      let t = record s { bytes_to_write = add64 s.bytes_to_write (length buffer) } in
      if not (is_open s)
      then (set_error not_open_error s, minus_one)
      else if size == 0
      then (s, signed64 0)
      else (enqueue (posted buffer) t, signed64 size)

  -- `out` says whether the pointer is non-null. The bytes are what is written there.
  unfoldable pub read : Bool → ℕ → Asio d → Asio d × ℤ × Bytes
  unfolding ReadBuffer.pop
  read out most s =
      let (n, bytes, rest) = ReadBuffer.pop most s.read_buffer in
      if out then (record s { read_buffer = rest }, signed64 n, bytes) else (s, signed64 0, [])

  unfoldable pub bytes_available : Asio d → ℤ
  unfolding ReadBuffer.size
  bytes_available s = signed64 (ReadBuffer.size s.read_buffer)

  unfoldable pub bytes_to_write : Asio d → ℤ
  bytes_to_write s = signed64 s.bytes_to_write

  unfoldable pub flush : Asio d → Asio d × Bool
  flush s = elim s.port [
    | none ↦ (s, false)
    | some p ↦
        if d.is_open p
        then (record s { port = some (d.tcdrain p).1 }, (d.tcdrain p).0)
        else (s, false)
  ]

  unfoldable pub clear : Directions → Asio d → Asio d × Bool
  unfolding flush_selector
  clear dirs s = elim s.port [
    | none ↦ (s, false)
    | some p ↦
        let r = d.tcflush (flush_selector dirs) p in
        if d.is_open p then (record s { port = some r.1 }, r.0) else (s, false)
  ]

  -- A property of `work`: of the state as it is, and of every handler that can be called.
  pub work_cases {ℓ} :
      (P : Asio d → Type ℓ) (c : Completion) (s : Asio d)
      → P s
      → ((h : Handler)
          → get_elem? s.pending c.handler ≡ some h
          → s.thread ≡ true
          → P (run_handler h c (record s { pending = erase_idx s.pending c.handler })))
      → P (work c s)
  unfolding work
  work_cases P c s idle busy = elim (Option-cases (get_elem? s.pending c.handler)) [
    | inl e ↦ rw (e, work) idle
    | inr (h, e) ↦ rw (e, work) (if-cases P s.thread (λ t. busy h e t) (λ _. idle))
  ]

  -- With a worker thread, the handler at the place is taken out of the queue and called.
  pub work_at :
      (c : Completion) (s : Asio d) (h : Handler)
      → get_elem? s.pending c.handler ≡ some h
      → s.thread ≡ true
      → work c s ≡ run_handler h c (record s { pending = erase_idx s.pending c.handler })
  unfolding work
  work_at c s h e t = rw (e, work) (unthread s.thread t)
    where
      called : Asio d
      called = run_handler h c (record s { pending = erase_idx s.pending c.handler })

      unthread : (b : Bool) → b ≡ true → (if b then called else s) ≡ called
      unthread true e' = refl
      unthread false e' = cc
