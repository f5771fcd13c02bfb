-- ===== src/CAbi/Paired.antt =====
-- The pairs of enumerators that src/CAbi.cpp checks with CPS_ENUM_CHECK, against the casts.
use cross_plaform_serial.Types.{
  DataBits, data5, data6, data7, data8, Parity, no_parity, even_parity, odd_parity, space_parity,
  mark_parity, StopBits, one_stop, one_and_half_stop, two_stop, FlowControl, no_flow_control,
  hardware_control, software_control, Directions, input, output, all_directions, OpenMode,
  read_only, write_only, read_write, SerialError, no_error, device_not_found_error,
  permission_error, open_error, parity_error, framing_error, write_error, read_error,
  resource_error, unsupported_operation_error, unknown_error, timeout_error, not_open_error,
}
use cross_plaform_serial.CAbi.Enums.{
  CDataBits, data_5, data_6, data_7, data_8, CParity, par_none, par_even, par_odd, par_space,
  par_mark, CStopBits, stop_one, stop_one_half, stop_two, CFlowControl, flow_none, flow_hardware,
  flow_software, CDirections, dir_input, dir_output, dir_all, COpenMode, mode_read, mode_write,
  mode_readwrite, CError, err_none, err_device_not_found, err_permission, err_open, err_parity,
  err_framing, err_write, err_read, err_resource, err_unsupported_operation, err_unknown,
  err_timeout, err_not_open,
}

unfoldable pub paired_data_bits : CDataBits → DataBits
paired_data_bits data_5 = data5
paired_data_bits data_6 = data6
paired_data_bits data_7 = data7
paired_data_bits data_8 = data8

unfoldable pub paired_parity : CParity → Parity
paired_parity par_none = no_parity
paired_parity par_even = even_parity
paired_parity par_odd = odd_parity
paired_parity par_space = space_parity
paired_parity par_mark = mark_parity

unfoldable pub paired_stop_bits : CStopBits → StopBits
paired_stop_bits stop_one = one_stop
paired_stop_bits stop_one_half = one_and_half_stop
paired_stop_bits stop_two = two_stop

unfoldable pub paired_flow_control : CFlowControl → FlowControl
paired_flow_control flow_none = no_flow_control
paired_flow_control flow_hardware = hardware_control
paired_flow_control flow_software = software_control

unfoldable pub paired_directions : CDirections → Directions
paired_directions dir_input = input
paired_directions dir_output = output
paired_directions dir_all = all_directions

unfoldable pub paired_open_mode : COpenMode → OpenMode
paired_open_mode mode_read = read_only
paired_open_mode mode_write = write_only
paired_open_mode mode_readwrite = read_write

unfoldable pub paired_error : SerialError → CError
paired_error no_error = err_none
paired_error device_not_found_error = err_device_not_found
paired_error permission_error = err_permission
paired_error open_error = err_open
paired_error parity_error = err_parity
paired_error framing_error = err_framing
paired_error write_error = err_write
paired_error read_error = err_read
paired_error resource_error = err_resource
paired_error unsupported_operation_error = err_unsupported_operation
paired_error unknown_error = err_unknown
paired_error timeout_error = err_timeout
paired_error not_open_error = err_not_open
