-- ===== src/Tests/Interface.antt =====
-- src/SerialPort.cpp and src/CAbi.cpp over the desktop backend on the simulated line.
use cross_plaform_serial.Common.{[], ◌≡◌, ◌↔◌, refl, none, some}
use cross_plaform_serial.Types.{error_notice, resource_error}
use cross_plaform_serial.Backend.{SerialBackend}
use cross_plaform_serial.SerialPort
use cross_plaform_serial.SerialPort.{SerialPort, forward}
use cross_plaform_serial.Asio.Implements.{asio_backend, asio-IsBackend}
use cross_plaform_serial.CAbi.{
  CPort, CCallbacks, cps_serial_new, cps_serial_open, cps_serial_is_open, cps_serial_set_callbacks,
  register, invoke_all,
}
use cross_plaform_serial.CAbi.Enums.{err_none, mode_readwrite}
use cross_plaform_serial.CAbi.Laws.{cps_serial_open_iff, promised, set_callbacks_calls}
use cross_plaform_serial.Tests.Simulated.{sim, sim-IsDevice}
use cross_plaform_serial.Tests.Desktop.{code, name, talk, session}
use cross_plaform_serial.Asio.Run.{act_all}

abbrev pub desktop : SerialBackend
desktop = asio_backend sim

-- The functions of the facade and of the C interface.
c_code : Unit {0}
unfolding code
c_code = tt

unfoldable pub handle : CPort desktop
unfolding cps_serial_new SerialPort.set_port_name
handle = cps_serial_new (some name)

-- The handle with its port open, one byte waiting.
unfoldable pub busy : CPort desktop
unfolding handle
busy = record handle { port = record (handle.port) { backend = act_all talk session } }

abbrev c_callbacks : CCallbacks
c_callbacks = record { on_ready_read = some 1000; on_bytes_written = none; on_error = some 2000 }

cps_serial_open_iff_example :
    let (q, e) = cps_serial_open [] (some handle) mode_readwrite in
    (e ≡ err_none) ↔ (cps_serial_is_open q ≡ 1)
unfolding handle SerialPort.new code
cps_serial_open_iff_example =
    cps_serial_open_iff (asio-IsBackend sim-IsDevice) [] handle mode_readwrite refl

set_callbacks_calls_example :
    (let q = register busy (some c_callbacks) 7 in
      (cps_serial_set_callbacks (some busy) (some c_callbacks) 7 ≡ some q)
      × (invoke_all q (forward q.port.cbs (error_notice resource_error))
          ≡ promised c_callbacks 7 (error_notice resource_error)))
    × (let q = register busy none 7 in
        (cps_serial_set_callbacks (some busy) none 7 ≡ some q)
        × (invoke_all q (forward q.port.cbs (error_notice resource_error)) ≡ []))
set_callbacks_calls_example = set_callbacks_calls busy c_callbacks 7 (error_notice resource_error)
