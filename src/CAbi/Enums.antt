-- ===== src/CAbi/Enums.antt =====
-- The enumerations of include/cps/cps.h, the casts between them and those of C++, and the texts of
-- `cps_error_string`.
use Prim.Native.String.{String}
use cross_plaform_serial.Common.{ℕ, List, [], ◌∷◌, ◌==◌, if◌then◌else◌}
use cross_plaform_serial.Types.{
  DataBits, data5, data6, data7, data8, Parity, no_parity, even_parity, odd_parity, space_parity,
  mark_parity, StopBits, one_stop, one_and_half_stop, two_stop, FlowControl, no_flow_control,
  hardware_control, software_control, Directions, input, output, all_directions, OpenMode,
  read_only, write_only, read_write, SerialError, data_bits_value, parity_value, stop_bits_value,
  flow_control_value, directions_value, open_mode_value, serial_error_value,
}

pub data CDataBits : Type 0 where
  data_5 data_6 data_7 data_8 : CDataBits

pub data CParity : Type 0 where
  par_none par_even par_odd par_space par_mark : CParity

pub data CStopBits : Type 0 where
  stop_one stop_one_half stop_two : CStopBits

pub data CFlowControl : Type 0 where
  flow_none flow_hardware flow_software : CFlowControl

pub data CDirections : Type 0 where
  dir_input dir_output dir_all : CDirections

pub data COpenMode : Type 0 where
  mode_read mode_write mode_readwrite : COpenMode

pub data CError : Type 0 where
  err_none err_device_not_found err_permission err_open err_parity err_framing err_write : CError
  err_read err_resource err_unsupported_operation err_unknown err_timeout err_not_open : CError

abbrev c_data_bits_value : CDataBits → ℕ
c_data_bits_value data_5 = 5
c_data_bits_value data_6 = 6
c_data_bits_value data_7 = 7
c_data_bits_value data_8 = 8

abbrev c_parity_value : CParity → ℕ
c_parity_value par_none = 0
c_parity_value par_even = 1
c_parity_value par_odd = 2
c_parity_value par_space = 3
c_parity_value par_mark = 4

abbrev c_stop_bits_value : CStopBits → ℕ
c_stop_bits_value stop_one = 0
c_stop_bits_value stop_one_half = 1
c_stop_bits_value stop_two = 2

abbrev c_flow_control_value : CFlowControl → ℕ
c_flow_control_value flow_none = 0
c_flow_control_value flow_hardware = 1
c_flow_control_value flow_software = 2

abbrev c_directions_value : CDirections → ℕ
c_directions_value dir_input = 1
c_directions_value dir_output = 2
c_directions_value dir_all = 3

abbrev c_open_mode_value : COpenMode → ℕ
c_open_mode_value mode_read = 1
c_open_mode_value mode_write = 2
c_open_mode_value mode_readwrite = 3

abbrev c_error_value : CError → ℕ
c_error_value err_none = 0
c_error_value err_device_not_found = 1
c_error_value err_permission = 2
c_error_value err_open = 3
c_error_value err_parity = 4
c_error_value err_framing = 5
c_error_value err_write = 6
c_error_value err_read = 7
c_error_value err_resource = 8
c_error_value err_unsupported_operation = 9
c_error_value err_unknown = 10
c_error_value err_timeout = 11
c_error_value err_not_open = 12

-- The enumerator with an integer. `other` stands for a value that is no enumerator, which is not
-- modelled; `enums` are the enumerators.
abbrev enumerator : {A : Type 0} → (A → ℕ) → A → List A → ℕ → A
enumerator value other [] n = other
enumerator value other (a ∷ enums) n =
    let rest = enumerator value other enums n in if value a == n then a else rest

-- A `static_cast` between two enumerations keeps the integer: these are the casts of the C
-- functions.
unfoldable pub to_data_bits : CDataBits → DataBits
to_data_bits v =
    enumerator data_bits_value data5 (data5 ∷ data6 ∷ data7 ∷ data8 ∷ []) (c_data_bits_value v)

unfoldable pub to_parity : CParity → Parity
to_parity v =
    enumerator parity_value no_parity
      (no_parity ∷ even_parity ∷ odd_parity ∷ space_parity ∷ mark_parity ∷ []) (c_parity_value v)

unfoldable pub to_stop_bits : CStopBits → StopBits
to_stop_bits v =
    enumerator stop_bits_value one_stop (one_stop ∷ one_and_half_stop ∷ two_stop ∷ [])
      (c_stop_bits_value v)

unfoldable pub to_flow_control : CFlowControl → FlowControl
to_flow_control v =
    enumerator flow_control_value no_flow_control
      (no_flow_control ∷ hardware_control ∷ software_control ∷ []) (c_flow_control_value v)

unfoldable pub to_directions : CDirections → Directions
to_directions v =
    enumerator directions_value input (input ∷ output ∷ all_directions ∷ []) (c_directions_value v)

unfoldable pub to_open_mode : COpenMode → OpenMode
to_open_mode v =
    enumerator open_mode_value read_only (read_only ∷ write_only ∷ read_write ∷ [])
      (c_open_mode_value v)

unfoldable pub of_error : SerialError → CError
of_error e =
    enumerator c_error_value err_unknown
      (err_none ∷ err_device_not_found ∷ err_permission ∷ err_open ∷ err_parity ∷ err_framing
        ∷ err_write ∷ err_read ∷ err_resource ∷ err_unsupported_operation ∷ err_unknown
        ∷ err_timeout ∷ err_not_open ∷ [])
      (serial_error_value e)

unfoldable pub cps_version : String
cps_version = "1.0.0"

unfoldable pub cps_error_string : CError → String
cps_error_string err_none = "no error"
cps_error_string err_device_not_found = "device not found"
cps_error_string err_permission = "permission denied"
cps_error_string err_open = "failed to open device"
cps_error_string err_parity = "parity error"
cps_error_string err_framing = "framing error"
cps_error_string err_write = "write error"
cps_error_string err_read = "read error"
cps_error_string err_resource = "resource error"
cps_error_string err_unsupported_operation = "unsupported operation"
cps_error_string err_unknown = "unknown error"
cps_error_string err_timeout = "timeout"
cps_error_string err_not_open = "port not open"
