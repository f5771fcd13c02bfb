-- ===== src/Asio/Lifecycle.antt =====
-- `AsioBackend::open` and `AsioBackend::close`. A call of `close` waits for the worker thread, and
-- the handlers that the thread still runs before it is joined are an argument of the model.
use cross_plaform_serial.Common.{Bytes, Bool, true, false, List, none, some, ◌==◌, if◌then◌else◌}
use cross_plaform_serial.Types.{OpenMode, no_error}
use cross_plaform_serial.ReadBuffer
use cross_plaform_serial.Device.{Device}
use cross_plaform_serial.Asio.State.{Asio, Completion, is_open, set_error, map_error}
use cross_plaform_serial.Asio.Config.{apply_config, apply_native_timeouts}
use cross_plaform_serial.Asio.Io.{do_read, work_all}

module _ {d : Device} where
  -- A call on the port if it exists and is open.
  unfoldable pub if_open : (d.Port → d.Port) → Asio d → Asio d
  if_open f s = elim s.port [
    | none ↦ s
    | some p ↦ if d.is_open p then record s { port = some (f p) } else s
  ]

  -- Up to `port_->cancel(ec)`.
  unfoldable pub begin_close : Asio d → Asio d
  unfolding if_open
  begin_close s = if_open d.cancel (record s { closing = true; running = false })

  -- From `work_.reset()` on. `io_->stop()` ends the thread's loop and `io_->restart()` makes the
  -- context usable again: neither takes a handler out of the queue.
  unfoldable pub end_close : Asio d → Asio d
  unfolding if_open ReadBuffer.clear
  end_close s =
      let joined = record s { guard = false; thread = false } in
      let shut = if_open d.close joined in
      record shut { read_buffer = ReadBuffer.clear shut.read_buffer; bytes_to_write = 0 }

  unfoldable pub close : List Completion → Asio d → Asio d
  unfolding begin_close end_close
  close last s = end_close (work_all last (begin_close s))

  -- `if (!io_) …` and `if (!port_) …`.
  unfoldable pub make_port : Asio d → Asio d
  make_port s = elim s.port [
    | none ↦ record s { io = true; port = some d.make }
    | some p ↦ record s { io = true }
  ]

  -- The flags, the work guard and the worker thread of an open port.
  unfoldable pub arm : Asio d → Asio d
  arm s = record s { running = true; closing = false; guard = true; thread = true }

  -- What follows a successful `port_->open`.
  unfoldable pub start : Asio d → Asio d
  start s = do_read (arm (apply_native_timeouts (apply_config (record s { error = no_error }))))

  -- `port_->open(name, ec)` and its two outcomes. There is a port by now.
  unfoldable pub try_open : Bytes → Asio d → Asio d × Bool
  try_open name s = elim s.port [
    | none ↦ (s, false)
    | some p ↦
        let r = d.open_port name p in
        let t = record s { port = some r.1 } in
        if r.0 == 0 then (start t, true) else (set_error (map_error r.0) t, false)
  ]

  unfoldable pub open_port : List Completion → Bytes → OpenMode → Asio d → Asio d × Bool
  open_port last name mode s =
      let made = make_port s in try_open name (if is_open made then close last made else made)
