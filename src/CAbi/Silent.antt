-- ===== src/CAbi/Silent.antt =====
-- Calls of the C interface on the desktop backend that fail and return CPS_ERR_NONE.
use cross_plaform_serial.Common.{
  ℤ, true, false, some, ◌≡◌, ◌≢◌, arith, to_unsigned, inl, inr, Option-cases,
}
use cross_plaform_serial.Types.{no_error}
use cross_plaform_serial.Device.{Device, baud_rate}
use cross_plaform_serial.Asio.State.{is_open, last_error}
use cross_plaform_serial.Asio.Config.{set_baud_rate}
use cross_plaform_serial.Asio.Io.{flush, clear}
use cross_plaform_serial.Asio.Implements.{asio_backend}
use cross_plaform_serial.SerialPort
use cross_plaform_serial.CAbi.Enums.{err_none, of_error, CDirections, to_directions}
use cross_plaform_serial.CAbi.{CPort, cps_serial_set_baud_rate, cps_serial_flush, cps_serial_clear}

module _ {d : Device} where
  -- On an open port whose last error is NoError, where the device refuses the rate, `setBaudRate`
  -- returns false and `cps_serial_set_baud_rate` returns CPS_ERR_NONE.
  set_baud_rate_silent :
      (p : CPort (asio_backend d)) (port : d.Port) (rate : ℤ) (dir : CDirections)
      → p.port.backend.port ≡ some port
      → d.is_open port ≡ true
      → p.port.backend.error ≡ no_error
      → (d.set_option (baud_rate (to_unsigned rate)) port).0 ≢ 0
      → ((SerialPort.set_baud_rate rate p.port).1 ≡ false)
        × ((cps_serial_set_baud_rate (some p) rate dir).1 ≡ err_none)
  unfolding cps_serial_set_baud_rate SerialPort.set_baud_rate SerialPort.error set_baud_rate
      last_error of_error
  set_baud_rate_silent p port rate dir e o n f = ground arith

  -- On a closed port whose last error is NoError, `flush` and `clear` return false, and
  -- `cps_serial_flush` and `cps_serial_clear` return CPS_ERR_NONE.
  flush_clear_silent :
      (p : CPort (asio_backend d)) (dir : CDirections)
      → is_open p.port.backend ≡ false
      → p.port.backend.error ≡ no_error
      → ((SerialPort.flush p.port).1 ≡ false)
        × ((cps_serial_flush (some p)).1 ≡ err_none)
        × ((SerialPort.clear (to_directions dir) p.port).1 ≡ false)
        × ((cps_serial_clear (some p) dir).1 ≡ err_none)
  unfolding cps_serial_flush cps_serial_clear SerialPort.flush SerialPort.clear SerialPort.error
      last_error of_error is_open flush clear
  flush_clear_silent p dir c n = elim (Option-cases p.port.backend.port) [
    | inl g ↦ ground arith
    | inr (q, g) ↦ ground arith
  ]
