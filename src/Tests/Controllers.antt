-- ===== src/Tests/Controllers.antt =====
-- The controllers and list models of the Qt examples on the simulated line.
use cross_plaform_serial.Qt.Notified.{IsDrained}
use cross_plaform_serial.Asio.State.{Completion}
use cross_plaform_serial.Qt.Heard.{delivers, IsShort}
use cross_plaform_serial.Qt.SerialShown.{serial_shown, SerialListens}
use cross_plaform_serial.Qt.Races.{disconnect_ignored, connected_closed, closed}
use cross_plaform_serial.Qt.Shown.{shown, steps}
use cross_plaform_serial.Qt.Steps.{view-run, abstract_all}
use cross_plaform_serial.Qt.Settled.{settled, loops}
use cross_plaform_serial.Qt.Protocol.Coherent.{AtRest, IsCoherent}
use cross_plaform_serial.Qt.Refines.{view}
use cross_plaform_serial.Qt.Told.{run-new-IsCoherent, run-new-IsOwned, IsPatientRun}
use cross_plaform_serial.Qt.Protocol.Owned.{IsOwned}
use cross_plaform_serial.Common.{arith, length, List, [], ◌∷◌, ◌++◌, ◌≡◌, refl, true, false, pos}
use cross_plaform_serial.SerialPort
use cross_plaform_serial.SerialPort.{clear_error, SerialPort}
use cross_plaform_serial.Asio.Implements.{asio_backend}
use cross_plaform_serial.Qt.Link.{Link, IsLink}
use cross_plaform_serial.Qt.Protocol
use cross_plaform_serial.Qt.Protocol.Coherent.{IsCoherent, AtRest}
use cross_plaform_serial.Qt.Gui
use cross_plaform_serial.Qt.Gui.{
  Controller, Event, worker_steps, thread_opens, thread_reports, loop_dispatches, calls_connect,
  calls_disconnect, calls_send, calls_clear, run, step,
}
use cross_plaform_serial.Qt.Desktop
use cross_plaform_serial.Asio.State
use cross_plaform_serial.Qt.Serial
use cross_plaform_serial.Qt.Serial.{serial_link, serial-IsLink, serial_client}
use cross_plaform_serial.Tests.Desktop.{code, name, arrives}
use cross_plaform_serial.Tests.Simulated.{sim, sim-IsDevice}

unfoldable pub gui_code : Unit {0}
unfolding code State.clear_error State.last_error Gui.new Gui.emits Gui.posts Gui.take_calls
    Gui.works Gui.opens Gui.reports Gui.join Gui.shut Gui.disconnect_port Gui.connect_port Gui.send
    Gui.clear Gui.invoke Gui.dispatch step run Desktop.handle_all Desktop.works_one
    Desktop.works_all Desktop.closes Desktop.readies Desktop.opens Serial.error_to_string
    Serial.on_cps_error Serial.new_port Serial.on_ready_read Serial.callback Serial.callbacks
    Serial.configure SerialPort.new SerialPort.set_callbacks SerialPort.set_port_name
    SerialPort.set_baud_rate SerialPort.set_data_bits SerialPort.set_parity SerialPort.set_stop_bits
    SerialPort.set_flow_control SerialPort.clear_error SerialPort.push_config SerialPort.forward
    SerialPort.read SerialPort.read_all SerialPort.is_open SerialPort.write SerialPort.clear
    SerialPort.error
gui_code = tt

abbrev desktop : Link
desktop = serial_link sim

abbrev laws : IsLink desktop
laws = serial-IsLink sim-IsDevice

abbrev port : SerialPort (asio_backend sim)
port = Serial.new_port

port_closed : desktop.is_open port ≡ false
unfolding gui_code
port_closed = refl

-- A connect up to the signal, two bytes that arrive, three that are sent, and a disconnect.
abbrev talks : List (Event desktop)
talks =
    calls_connect [] [] name (pos 9600)
    ∷ thread_opens []
    ∷ thread_reports
    ∷ loop_dispatches []
    ∷ worker_steps (arrives (7 ∷ 8 ∷ []))
    ∷ calls_send (1 ∷ 2 ∷ 3 ∷ [])
    ∷ []

after_talks :
    let s = run talks (Gui.new desktop port) in
    (s.connected ≡ true)
    × (s.signals ≡ Gui.connected_changed true ∷ Gui.data_received (7 ∷ 8 ∷ []) ∷ [])
    × (desktop.is_open s.port ≡ true)
unfolding gui_code
after_talks = (refl, refl, refl)

view-run_example :
    view (run talks (Gui.new desktop port))
    ≡ Protocol.moves (abstract_all talks (Gui.new desktop port)) (view (Gui.new desktop port))
view-run_example = view-run laws talks (Gui.new desktop port)

run-new-IsOwned_example : IsOwned (view (run talks (Gui.new desktop port)))
run-new-IsOwned_example = run-new-IsOwned laws port talks port_closed

talks-IsPatientRun : IsPatientRun talks (Gui.new desktop port)
unfolding gui_code
talks-IsPatientRun = ((refl, refl), (tt, (tt, (tt, (tt, (tt, tt))))))

run-new-IsCoherent_example : IsCoherent (view (run talks (Gui.new desktop port)))
run-new-IsCoherent_example = run-new-IsCoherent laws port talks port_closed talks-IsPatientRun

-- A connect whose result is yet to come.
abbrev waits : List (Event desktop)
waits = calls_connect [] [] name (pos 9600) ∷ []

waits-IsPatientRun : IsPatientRun waits (Gui.new desktop port)
unfolding gui_code
waits-IsPatientRun = ((refl, refl), tt)

-- One turn of the event loop.
abbrev once : List (List Completion)
once = [] ∷ []

one_waits : length once ≡ length (Gui.join [] (run waits (Gui.new desktop port))).queue
unfolding gui_code
one_waits = refl

settled_example :
    let t = loops once (Gui.join [] (run waits (Gui.new desktop port))) in
    AtRest (view t) × (t.connected ≡ desktop.is_open t.port)
settled_example = settled laws port waits [] once port_closed waits-IsPatientRun one_waits

opens_quietly :
    ((desktop.connect [] name (pos 9600) port).1 ≡ [])
    × ((desktop.connect [] name (pos 9600) port).2 ≡ true)
unfolding gui_code
opens_quietly = (refl, refl)

disconnect_ignored_example :
    let s : Controller desktop =
      Gui.connect_port [] [] name (pos 9600) (closed {l = desktop} port Gui.idle [] []) in
    let t : Controller desktop = Gui.dispatch [] (Gui.disconnect_port [] [] s) in
    (t.port ≡ (desktop.connect [] name (pos 9600) port).0)
    × (t.connected ≡ true)
    × (t.connected_port ≡ name)
disconnect_ignored_example =
    disconnect_ignored desktop [] [] [] [] [] name (pos 9600) port [] opens_quietly.0
      opens_quietly.1

-- The port once the first open has succeeded.
abbrev port_opened : SerialPort (asio_backend sim)
port_opened = (desktop.connect [] name (pos 9600) port).0

fails_quietly :
    ((desktop.connect [] [] (pos 9600) port_opened).1 ≡ [])
    × ((desktop.connect [] [] (pos 9600) port_opened).2 ≡ false)
unfolding gui_code
fails_quietly = (refl, refl)

connected_closed_example :
    let s1 : Controller desktop =
      Gui.connect_port [] [] name (pos 9600) (closed {l = desktop} port Gui.idle [] []) in
    let s2 : Controller desktop = Gui.connect_port [] [] [] (pos 9600) s1 in
    let t : Controller desktop = Gui.dispatch [] (Gui.dispatch [] (Gui.join [] s2)) in
    (t.connected ≡ true) × (t.connected_port ≡ name) × (desktop.is_open t.port ≡ false)
connected_closed_example =
    connected_closed desktop [] [] [] [] [] [] [] name [] (pos 9600) (pos 9600) port [] laws
      opens_quietly.0 opens_quietly.1 fails_quietly.0 fails_quietly.1

-- Two bytes arrive, and then three.
abbrev pub arrivals : List Completion
arrivals = arrives (7 ∷ 8 ∷ []) ∷ arrives (1 ∷ 2 ∷ 3 ∷ []) ∷ []

pub arrivals-IsShort : IsShort arrivals
arrivals-IsShort = (omega arith, (omega arith, tt))

abbrev connected : Controller desktop
connected = Gui.dispatch [] (Gui.join [] (run waits (Gui.new desktop port)))

connected_listens : SerialListens connected.port × IsDrained connected.port.backend
unfolding gui_code
connected_listens = (refl, (refl, refl))

serial_shown_example :
    let t = run (steps arrivals) connected in
    (shown t.signals
      ≡ shown connected.signals ++ delivers (serial_client sim) arrivals connected.port)
    × IsDrained t.port.backend
serial_shown_example =
    serial_shown sim-IsDevice arrivals connected arrivals-IsShort connected_listens.0
      connected_listens.1

shows_five : shown (run (steps arrivals) connected).signals ≡ 7 ∷ 8 ∷ 1 ∷ 2 ∷ 3 ∷ []
unfolding gui_code
shows_five = refl
