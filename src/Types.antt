-- ===== src/Types.antt =====
-- The enumerations of include/cps/SerialTypes.hpp, with the integer behind each enumerator, and
-- the notifications of src/detail/SerialBackend.hpp and include/cps/SerialPort.hpp. A value of an
-- `enum class` that is none of its enumerators is not modelled.
use cross_plaform_serial.Common.{ℕ, ℤ, Bool}

pub data DataBits : Type 0 where
  data5 data6 data7 data8 : DataBits

pub data Parity : Type 0 where
  no_parity even_parity odd_parity space_parity mark_parity : Parity

pub data StopBits : Type 0 where
  one_stop one_and_half_stop two_stop : StopBits

pub data FlowControl : Type 0 where
  no_flow_control hardware_control software_control : FlowControl

pub data Directions : Type 0 where
  input output all_directions : Directions

pub data OpenMode : Type 0 where
  read_only write_only read_write : OpenMode

pub data SerialError : Type 0 where
  no_error device_not_found_error permission_error open_error parity_error : SerialError
  framing_error write_error read_error resource_error : SerialError
  unsupported_operation_error unknown_error timeout_error not_open_error : SerialError

abbrev pub data_bits_value : DataBits → ℕ
data_bits_value data5 = 5
data_bits_value data6 = 6
data_bits_value data7 = 7
data_bits_value data8 = 8

abbrev pub parity_value : Parity → ℕ
parity_value no_parity = 0
parity_value even_parity = 1
parity_value odd_parity = 2
parity_value space_parity = 3
parity_value mark_parity = 4

abbrev pub stop_bits_value : StopBits → ℕ
stop_bits_value one_stop = 0
stop_bits_value one_and_half_stop = 1
stop_bits_value two_stop = 2

abbrev pub flow_control_value : FlowControl → ℕ
flow_control_value no_flow_control = 0
flow_control_value hardware_control = 1
flow_control_value software_control = 2

abbrev pub directions_value : Directions → ℕ
directions_value input = 1
directions_value output = 2
directions_value all_directions = 3

abbrev pub open_mode_value : OpenMode → ℕ
open_mode_value read_only = 1
open_mode_value write_only = 2
open_mode_value read_write = 3

abbrev pub serial_error_value : SerialError → ℕ
serial_error_value no_error = 0
serial_error_value device_not_found_error = 1
serial_error_value permission_error = 2
serial_error_value open_error = 3
serial_error_value parity_error = 4
serial_error_value framing_error = 5
serial_error_value write_error = 6
serial_error_value read_error = 7
serial_error_value resource_error = 8
serial_error_value unsupported_operation_error = 9
serial_error_value unknown_error = 10
serial_error_value timeout_error = 11
serial_error_value not_open_error = 12

-- One call of a user callback, with its argument.
pub data Notice : Type 0 where
  ready_read : Notice
  bytes_written : ℤ → Notice
  error_notice : SerialError → Notice

-- Which of the three `std::function` members are set.
pub record Callbacks : Type 0 where
  pub on_ready_read : Bool
  pub on_bytes_written : Bool
  pub on_error : Bool
