-- ===== src/Asio/State.antt =====
-- The members of `AsioBackend` (src/detail/AsioBackend.hpp) and its error mapping.

use cross_plaform_serial.Common.{
  ℕ, ℤ, pos, Bytes, Bool, false, ◌||◌, List, [], ◌∷◌, ◌++◌, Option, none, some, ◌==◌, if◌then◌else◌,
}
use cross_plaform_serial.Types.{
  DataBits, data8, Parity, no_parity, StopBits, one_stop, FlowControl, no_flow_control, SerialError,
  no_error, device_not_found_error, permission_error, resource_error, unknown_error, Notice,
  error_notice, Callbacks,
}
use cross_plaform_serial.ReadBuffer.{ReadBuffer}
use cross_plaform_serial.ReadBuffer
use cross_plaform_serial.Device.{Device, ErrorCode}

-- A handler that was given to the `io_context` and has not run: of `async_read_some`, of the
-- `asio::post` in `write` with its buffer, and of `async_write` with its buffer.
pub data Handler : Type 0 where
  reading : Handler
  posted : Bytes → Handler
  writing : Bytes → Handler

-- What the worker thread runs next: the place of the handler, and what asio hands to it: the
-- error code, the bytes read into `readScratch_`, the count of bytes written.
pub record Completion : Type 0 where
  pub handler : ℕ
  pub code : ErrorCode
  pub arrived : Bytes
  pub written : ℕ

module _ (d : Device) where
  -- `bytes_to_write` is the bit pattern of the atomic `int64_t`. `thread` says whether `thread_`
  -- is joinable. `pending` is the queue of the `io_context`, and `notices` the calls made so far
  -- through `onReadyRead`, `onBytesWritten` and `onError`, oldest first.
  pub record Asio : Type 0 where
    pub baud : ℤ
    pub data_bits : DataBits
    pub parity : Parity
    pub stop_bits : StopBits
    pub flow : FlowControl
    pub error : SerialError
    pub bytes_to_write : ℕ
    pub io : Bool
    pub port : Option d.Port
    pub guard : Bool
    pub thread : Bool
    pub running : Bool
    pub closing : Bool
    pub read_buffer : ReadBuffer
    pub callbacks : Callbacks
    pub pending : List Handler
    pub notices : List Notice

-- errno values of Linux.
abbrev enoent : ErrorCode
enoent = 2

abbrev enxio : ErrorCode
enxio = 6

abbrev eacces : ErrorCode
eacces = 13

abbrev eperm : ErrorCode
eperm = 1

abbrev ebusy : ErrorCode
ebusy = 16

unfoldable pub map_error : ErrorCode → SerialError
map_error ec =
    if ec == 0
    then no_error
    else if (ec == enoent) || (ec == enxio)
    then device_not_found_error
    else if (ec == eacces) || (ec == eperm)
    then permission_error
    else if ec == ebusy
    then resource_error
    else unknown_error

module _ {d : Device} where
  unfoldable pub new : Asio d
  unfolding ReadBuffer.new
  new = record {
    baud = pos 9600;
    data_bits = data8;
    parity = no_parity;
    stop_bits = one_stop;
    flow = no_flow_control;
    error = no_error;
    bytes_to_write = 0;
    io = false;
    port = none;
    guard = false;
    thread = false;
    running = false;
    closing = false;
    read_buffer = ReadBuffer.new;
    callbacks = record { on_ready_read = false; on_bytes_written = false; on_error = false };
    pending = [];
    notices = [];
  }

  -- `port_ && port_->is_open()`
  unfoldable pub is_open : Asio d → Bool
  is_open s = elim s.port [ none ↦ false | some p ↦ d.is_open p ]

  unfoldable pub set_error : SerialError → Asio d → Asio d
  set_error e s = record s { error = e }

  unfoldable pub last_error : Asio d → SerialError
  last_error s = s.error

  unfoldable pub clear_error : Asio d → Asio d
  clear_error s = record s { error = no_error }

  -- A call through a `std::function` member, if it is set.
  unfoldable pub call_if : Bool → Notice → Asio d → Asio d
  call_if set n s = if set then record s { notices = s.notices ++ (n ∷ []) } else s

  unfoldable pub notify_error : SerialError → Asio d → Asio d
  unfolding set_error call_if
  notify_error e s = call_if s.callbacks.on_error (error_notice e) (set_error e s)
