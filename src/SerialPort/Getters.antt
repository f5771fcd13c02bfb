-- ===== src/SerialPort/Getters.antt =====
-- The getters of `SerialPort`: the settings as the facade stores them.
use cross_plaform_serial.Common.{ℤ, Bytes}
use cross_plaform_serial.Types.{DataBits, Parity, StopBits, FlowControl, Directions}
use cross_plaform_serial.Backend.{SerialBackend}
use cross_plaform_serial.SerialPort.{SerialPort}

module _ {b : SerialBackend} where
  unfoldable pub port_name : SerialPort b → Bytes
  port_name p = p.port_name

  -- The direction is not looked at.
  unfoldable pub baud_rate : Directions → SerialPort b → ℤ
  baud_rate dirs p = p.baud_rate

  unfoldable pub data_bits : SerialPort b → DataBits
  data_bits p = p.data_bits

  unfoldable pub parity : SerialPort b → Parity
  parity p = p.parity

  unfoldable pub stop_bits : SerialPort b → StopBits
  stop_bits p = p.stop_bits

  unfoldable pub flow_control : SerialPort b → FlowControl
  flow_control p = p.flow
