-- ===== src/CAbi.antt =====
-- src/CAbi.cpp and include/cps/cps.h: the C interface over `SerialPort`. A handle or another
-- pointer that may be null is an option; a function that changes the object returns it beside its
-- result. `long` has 64 bits, as on Linux and 64-bit Android.
pub mod Enums
pub mod Paired
pub mod Laws
pub mod Silent
pub mod Client
pub mod Delivered
pub mod Synced
pub mod Ports
pub mod Freed
use cross_plaform_serial.Common.{
  ◌++◌, ℕ, ℤ, pos, negsuc, Bytes, Bool, true, false, ◌&&◌, Option, none, some, List, [], ◌∷◌,
  if◌then◌else◌, to_size, minus_one,
}
use cross_plaform_serial.Types.{
  Directions, Callbacks, Notice, ready_read, bytes_written, error_notice,
}
use cross_plaform_serial.Backend.{SerialBackend}
use cross_plaform_serial.SerialPort
use cross_plaform_serial.SerialPort.{SerialPort}
use Enums.{
  CError, err_none, err_unknown, err_unsupported_operation, CDataBits, CParity, CStopBits,
  CFlowControl, CDirections, COpenMode, to_data_bits, to_parity, to_stop_bits, to_flow_control,
  to_directions, to_open_mode, of_error,
}

-- `cps_Callbacks`: function pointers, which may be null. A non-null pointer is an address.
pub record CCallbacks : Type 0 where
  pub on_ready_read : Option ℕ
  pub on_bytes_written : Option ℕ
  pub on_error : Option ℕ

-- One call of a C callback: the function, `user_data`, and the argument.
pub data CCall : Type 0 where
  call_ready_read : ℕ → ℕ → CCall
  call_bytes_written : ℕ → ℕ → ℤ → CCall
  call_error : ℕ → ℕ → CError → CCall

-- The C++ callbacks that `cps_serial_set_callbacks` makes: one for each non-null pointer.
abbrev pub is_set : Option ℕ → Bool
is_set none = false
is_set (some fn) = true

abbrev pub no_c_callbacks : CCallbacks
no_c_callbacks = record { on_ready_read = none; on_bytes_written = none; on_error = none }

module _ (b : SerialBackend) where
  -- `struct cps_SerialPort`. `captured` are the pointers that the closures given to the port hold,
  -- with the `user_data` of the same call.
  pub record CPort : Type 0 where
    pub port : SerialPort b
    pub user_data : ℕ
    pub captured : CCallbacks

module _ {b : SerialBackend} where
  unfoldable pub cps_serial_new : Option Bytes → CPort b
  cps_serial_new name = record {
    port = elim name [ none ↦ SerialPort.new | some n ↦ SerialPort.set_port_name n SerialPort.new ];
    user_data = 0;
    captured = record { on_ready_read = none; on_bytes_written = none; on_error = none };
  }

  -- The state of the backend as its destructor, which calls `close`, leaves it.
  unfoldable pub cps_serial_free : b.Schedule → Option (CPort b) → Option b.State
  cps_serial_free w none = none
  cps_serial_free w (some p) = some (b.close w p.port.backend)

  -- `ok ? CPS_ERR_NONE : static_cast<cps_SerialError>(p->port.error())`
  unfoldable pub status : CPort b → SerialPort b × Bool → Option (CPort b) × CError
  status p (q, ok) =
      (some (record p { port = q }), if ok then err_none else of_error (SerialPort.error q))

  unfoldable pub cps_serial_set_port_name :
      Option (CPort b) → Option Bytes → Option (CPort b) × CError
  cps_serial_set_port_name none name = (none, err_unknown)
  cps_serial_set_port_name (some p) none = (some p, err_unknown)
  cps_serial_set_port_name (some p) (some name) =
      (some (record p { port = SerialPort.set_port_name name p.port }), err_none)

  unfoldable pub cps_serial_open :
      b.Schedule → Option (CPort b) → COpenMode → Option (CPort b) × CError
  unfolding status
  cps_serial_open w none mode = (none, err_unknown)
  cps_serial_open w (some p) mode = status p (SerialPort.open_port w (to_open_mode mode) p.port)

  unfoldable pub cps_serial_close : b.Schedule → Option (CPort b) → Option (CPort b)
  cps_serial_close w none = none
  cps_serial_close w (some p) = some (record p { port = SerialPort.close w p.port })

  unfoldable pub cps_serial_is_open : Option (CPort b) → ℕ
  cps_serial_is_open none = 0
  cps_serial_is_open (some p) = if SerialPort.is_open p.port then 1 else 0

  unfoldable pub cps_serial_write : Option (CPort b) → Bytes → ℤ → Option (CPort b) × ℤ
  cps_serial_write none bytes size = (none, minus_one)
  cps_serial_write (some p) bytes size =
      let r = SerialPort.write bytes (to_size size) p.port in (some (record p { port = r.0 }), r.1)

  -- The bytes are those written to `buf`.
  unfoldable pub cps_serial_read : Option (CPort b) → Bool → ℤ → Option (CPort b) × ℤ × Bytes
  cps_serial_read none out most = (none, minus_one, [])
  cps_serial_read (some p) out most =
      let (q, n, bytes) = SerialPort.read out (to_size most) p.port in
      (some (record p { port = q }), n, bytes)

  -- The direction is not used.
  unfoldable pub cps_serial_set_baud_rate :
      Option (CPort b) → ℤ → CDirections → Option (CPort b) × CError
  unfolding status
  cps_serial_set_baud_rate none rate dir = (none, err_unknown)
  cps_serial_set_baud_rate (some p) rate dir = status p (SerialPort.set_baud_rate rate p.port)

  unfoldable pub cps_serial_set_data_bits : Option (CPort b) → CDataBits → Option (CPort b) × CError
  unfolding status
  cps_serial_set_data_bits none v = (none, err_unknown)
  cps_serial_set_data_bits (some p) v = status p (SerialPort.set_data_bits (to_data_bits v) p.port)

  unfoldable pub cps_serial_set_parity : Option (CPort b) → CParity → Option (CPort b) × CError
  unfolding status
  cps_serial_set_parity none v = (none, err_unknown)
  cps_serial_set_parity (some p) v = status p (SerialPort.set_parity (to_parity v) p.port)

  unfoldable pub cps_serial_set_stop_bits : Option (CPort b) → CStopBits → Option (CPort b) × CError
  unfolding status
  cps_serial_set_stop_bits none v = (none, err_unknown)
  cps_serial_set_stop_bits (some p) v = status p (SerialPort.set_stop_bits (to_stop_bits v) p.port)

  unfoldable pub cps_serial_set_flow_control :
      Option (CPort b) → CFlowControl → Option (CPort b) × CError
  unfolding status
  cps_serial_set_flow_control none v = (none, err_unknown)
  cps_serial_set_flow_control (some p) v =
      status p (SerialPort.set_flow_control (to_flow_control v) p.port)

  unfoldable pub cps_serial_bytes_available : Option (CPort b) → ℤ
  cps_serial_bytes_available none = pos 0
  cps_serial_bytes_available (some p) = SerialPort.bytes_available p.port

  unfoldable pub cps_serial_bytes_to_write : Option (CPort b) → ℤ
  cps_serial_bytes_to_write none = pos 0
  cps_serial_bytes_to_write (some p) = SerialPort.bytes_to_write p.port

  unfoldable pub cps_serial_flush : Option (CPort b) → Option (CPort b) × CError
  unfolding status
  cps_serial_flush none = (none, err_unknown)
  cps_serial_flush (some p) = status p (SerialPort.flush p.port)

  unfoldable pub cps_serial_clear : Option (CPort b) → CDirections → Option (CPort b) × CError
  unfolding status
  cps_serial_clear none dir = (none, err_unknown)
  cps_serial_clear (some p) dir = status p (SerialPort.clear (to_directions dir) p.port)

  unfoldable pub cps_serial_error : Option (CPort b) → CError
  cps_serial_error none = err_unknown
  cps_serial_error (some p) = of_error (SerialPort.error p.port)

  unfoldable pub cps_serial_clear_error : Option (CPort b) → Option (CPort b)
  cps_serial_clear_error none = none
  cps_serial_clear_error (some p) = some (record p { port = SerialPort.clear_error p.port })

  -- The body of `cps_serial_set_callbacks` for a handle that is not null.
  unfoldable pub register : CPort b → Option CCallbacks → ℕ → CPort b
  register p cbs user =
      let c : CCallbacks = elim cbs [ none ↦ no_c_callbacks | some given ↦ given ] in
      let cpp : Callbacks = record {
        on_ready_read = is_set c.on_ready_read;
        on_bytes_written = is_set c.on_bytes_written;
        on_error = is_set c.on_error;
      } in
      record p { port = SerialPort.set_callbacks cpp p.port; user_data = user; captured = c }

  unfoldable pub cps_serial_set_callbacks :
      Option (CPort b) → Option CCallbacks → ℕ → Option (CPort b)
  cps_serial_set_callbacks none cbs user = none
  cps_serial_set_callbacks (some p) cbs user = some (register p cbs user)

  -- The bodies of those callbacks.
  unfoldable pub invoke : CPort b → Notice → List CCall
  invoke p ready_read = elim p.captured.on_ready_read [
    | none ↦ []
    | some fn ↦ call_ready_read fn p.user_data ∷ []
  ]
  invoke p (bytes_written n) = elim p.captured.on_bytes_written [
    | none ↦ []
    | some fn ↦ call_bytes_written fn p.user_data n ∷ []
  ]
  invoke p (error_notice e) = elim p.captured.on_error [
    | none ↦ []
    | some fn ↦ call_error fn p.user_data (of_error e) ∷ []
  ]

module _ {b : SerialBackend} where
  -- The C calls that a sequence of calls of the C++ callbacks makes.
  unfoldable pub invoke_all : CPort b → List Notice → List CCall
  invoke_all p [] = []
  invoke_all p (n ∷ ns) = invoke p n ++ invoke_all p ns

-- On a desktop platform.
unfoldable pub cps_serial_init_android : CError
cps_serial_init_android = err_unsupported_operation
