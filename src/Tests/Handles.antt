-- ===== src/Tests/Handles.antt =====
-- The Qt example over the C interface on the simulated line, and its list model.
use cross_plaform_serial.CAbi.Enums.{
  cps_error_string, of_error, to_open_mode, to_directions, to_flow_control, to_stop_bits,
  to_data_bits, to_parity,
}
use cross_plaform_serial.Qt.Notified.{IsDrained}
use cross_plaform_serial.Qt.Heard.{delivers}
use cross_plaform_serial.Qt.HandleShown.{handle_shown, HandleListens}
use cross_plaform_serial.Qt.Shown.{shown, steps}
use cross_plaform_serial.Common.{[], ◌∷◌, ◌++◌, ◌≡◌, refl, true, pos}
use cross_plaform_serial.CAbi
use cross_plaform_serial.Qt.Link.{Link}
use cross_plaform_serial.Qt.Gui
use cross_plaform_serial.Qt.Gui.{Controller, run, step}
use cross_plaform_serial.Qt.Handle
use cross_plaform_serial.Qt.CText.{c_string}
use cross_plaform_serial.Qt.Handle.{handle_link, handle-IsLink, handle_client}
use cross_plaform_serial.Tests.Desktop.{name}
use cross_plaform_serial.Tests.Controllers.{gui_code, arrivals, arrivals-IsShort}
use cross_plaform_serial.Tests.Simulated.{sim, sim-IsDevice}

unfoldable handle_code : Unit {0}
unfolding gui_code to_parity to_data_bits to_stop_bits to_flow_control to_directions to_open_mode
    of_error cps_error_string Handle.new_handle Handle.handle_ready_read Handle.handle_error
    Handle.callback Handle.callbacks Handle.configure Handle.open_handle CAbi.cps_serial_new
    CAbi.cps_serial_set_callbacks CAbi.register CAbi.status CAbi.cps_serial_set_port_name
    CAbi.cps_serial_set_baud_rate CAbi.cps_serial_set_data_bits CAbi.cps_serial_set_parity
    CAbi.cps_serial_set_stop_bits CAbi.cps_serial_set_flow_control CAbi.cps_serial_clear_error
    CAbi.cps_serial_read CAbi.cps_serial_write CAbi.cps_serial_clear CAbi.invoke CAbi.invoke_all
    c_string
handle_code = tt

abbrev c_desktop : Link
c_desktop = handle_link sim

-- A controller, connected.
abbrev c_connected : Controller c_desktop
c_connected = Gui.dispatch [] (
    Gui.join []
      (Gui.connect_port [] [] name (pos 9600) (Gui.new c_desktop (Handle.new_handle 1000))))

c_connected_listens :
    HandleListens c_connected.port
    × IsDrained c_connected.port.port.backend
    × (c_connected.connected ≡ true)
unfolding handle_code
c_connected_listens = ((refl, (1, refl)), (refl, refl), refl)

handle_shown_example :
    let t = run (steps arrivals) c_connected in
    (shown t.signals
      ≡ shown c_connected.signals ++ delivers (handle_client sim) arrivals c_connected.port)
    × IsDrained t.port.port.backend
handle_shown_example =
    handle_shown sim-IsDevice arrivals c_connected arrivals-IsShort c_connected_listens.0
      c_connected_listens.1

c_shows_five : shown (run (steps arrivals) c_connected).signals ≡ 7 ∷ 8 ∷ 1 ∷ 2 ∷ 3 ∷ []
unfolding handle_code
c_shows_five = refl
