-- ===== src/Qt/Handle.antt =====
-- `CabiController` of examples/qt_serial_cabi/cabicontroller.cpp over the desktop backend: what its
-- calls and callbacks do with the handle `port_`, which `cps_serial_new` gives and is never null.
use cross_plaform_serial.Common.{
  sym, to_size, take, is_positive, if◌then◌else◌, ℕ, ℤ, pos, Bytes, Bool, true, false, List, [],
  ◌∷◌, ◌++◌, ◌≡◌, ◌≢◌, refl, ◌∙◌, arith, length, Option, none, some,
}
use cross_plaform_serial.Types.{SerialError, no_error}
use cross_plaform_serial.Device.{Device, IsDevice}
use cross_plaform_serial.Asio.State.{last_error, Completion}
use cross_plaform_serial.Asio.Implements.{asio_backend}
use cross_plaform_serial.SerialPort
use cross_plaform_serial.CAbi.{CPort, CCall, CCallbacks}
use cross_plaform_serial.CAbi
use cross_plaform_serial.CAbi.Enums.{
  to_directions, CError, err_none, data_8, par_none, stop_one, flow_none, dir_all, mode_readwrite,
  cps_error_string, to_open_mode, of_error,
}
use cross_plaform_serial.Qt.Link.{Link, IsLink, Call, received, erred}
use cross_plaform_serial.Qt.CText.{c_string}
use cross_plaform_serial.Qt.Desktop.{
  clear-is_open, write-is_open, read-port, Client, IsClient, works_one, closes, opens,
  works_one-is_open, closes-is_open, opens-Tried,
}

-- `e == CPS_ERR_NONE`
abbrev pub is_none : CError → Bool
is_none err_none = true
is_none _ = false

-- The addresses of the two trampolines.
abbrev cps_cabi_ready_read : ℕ
cps_cabi_ready_read = 1

abbrev cps_cabi_error : ℕ
cps_cabi_error = 2

unfoldable pub handle_error : CError → List Call
unfolding cps_error_string
handle_error err_none = []
handle_error e = erred (cps_error_string e) ∷ []

module _ {d : Device} where
  -- What a call leaves of the handle that it was given.
  abbrev held : CPort (asio_backend d) → Option (CPort (asio_backend d)) → CPort (asio_backend d)
  held p none = p
  held p (some q) = q

  -- The handle of a new controller, at the address `this`.
  unfoldable pub new_handle : ℕ → CPort (asio_backend d)
  unfolding CAbi.cps_serial_new CAbi.cps_serial_set_callbacks
  new_handle this =
      let p = CAbi.cps_serial_new none in
      let cb : CCallbacks = record {
        on_ready_read = some cps_cabi_ready_read;
        on_bytes_written = none;
        on_error = some cps_cabi_error;
      } in
      held p (CAbi.cps_serial_set_callbacks (some p) (some cb) this)

  unfoldable pub handle_ready_read : CPort (asio_backend d) → CPort (asio_backend d) × List Call
  unfolding CAbi.cps_serial_read
  handle_ready_read p =
      let (q, n, buf) = CAbi.cps_serial_read (some p) true (pos 4096) in
      (held p q, if is_positive n then received (take (to_size n) buf) ∷ [] else [])

  -- The trampolines; the third pointer is null.
  unfoldable pub callback : CCall → CPort (asio_backend d) → CPort (asio_backend d) × List Call
  unfolding handle_ready_read handle_error
  callback (CAbi.call_ready_read fn user) p = handle_ready_read p
  callback (CAbi.call_bytes_written fn user n) p = (p, [])
  callback (CAbi.call_error fn user e) p = (p, handle_error e)

  unfoldable pub callbacks :
      List CCall → CPort (asio_backend d) → CPort (asio_backend d) × List Call
  unfolding callback
  callbacks [] p = (p, [])
  callbacks (c ∷ cs) p =
      let (q, calls) = callback c p in let (r, rest) = callbacks cs q in (r, calls ++ rest)

  -- The calls of the thread of `connectPort` before `cps_serial_open`.
  unfoldable pub configure : Bytes → ℤ → CPort (asio_backend d) → CPort (asio_backend d)
  unfolding CAbi.cps_serial_set_port_name CAbi.cps_serial_set_baud_rate
      CAbi.cps_serial_set_data_bits CAbi.cps_serial_set_parity CAbi.cps_serial_set_stop_bits
      CAbi.cps_serial_set_flow_control CAbi.cps_serial_clear_error
  configure name baud p =
      let p1 = (CAbi.cps_serial_set_port_name (some p) (some (c_string name))).0 in
      let p2 = (CAbi.cps_serial_set_baud_rate p1 baud dir_all).0 in
      let p3 = (CAbi.cps_serial_set_data_bits p2 data_8).0 in
      let p4 = (CAbi.cps_serial_set_parity p3 par_none).0 in
      let p5 = (CAbi.cps_serial_set_stop_bits p4 stop_one).0 in
      let p6 = (CAbi.cps_serial_set_flow_control p5 flow_none).0 in
      held p (CAbi.cps_serial_clear_error p6)

abbrev pub handle_client : (d : Device) → Client d
handle_client d = record {
  Port = CPort (asio_backend d);
  backend = λ p. p.port.backend;
  with_backend = λ s p. record p { port = record (p.port) { backend = s } };
  handle = λ n p. callbacks (CAbi.invoke_all p (SerialPort.forward p.port.cbs n)) p;
}

module _ {d : Device} where
  -- `cps_serial_open(port_, CPS_MODE_READWRITE)`: it pushes the settings, opens the backend and
  -- turns the result into a code.
  unfoldable pub open_handle :
      List Completion → CPort (asio_backend d) → CPort (asio_backend d) × List Call × CError
  unfolding CAbi.status SerialPort.push_config
  open_handle ws p =
      let mode = to_open_mode mode_readwrite in
      let pushed = SerialPort.push_config (record (p.port) { mode = mode }) in
      let (q, calls, ok) =
        opens (handle_client d) ws pushed.port_name (record p { port = pushed }) in
      let (r, e) = CAbi.status q (q.port, ok) in (held q r, calls, e)

abbrev pub handle_link : Device → Link
handle_link d = record {
  Port = CPort (asio_backend d);
  Step = Completion;
  Schedule = List Completion;
  Result = CError;
  is_open = λ p. SerialPort.is_open p.port;
  work = works_one (handle_client d);
  connect = λ ws name baud p. open_handle ws (configure name baud p);
  is_success = is_none;
  failure = λ e p. cps_error_string e;
  close = closes (handle_client d);
  write = λ bytes p.
      let (q, n) = CAbi.cps_serial_write (some p) bytes (pos (length bytes)) in (held p q, n);
  clear = λ p. held p (CAbi.cps_serial_clear (some p) dir_all).0;
}

of_error-is_none : (e : SerialError) → e ≢ no_error → is_none (of_error e) ≡ false
unfolding of_error
of_error-is_none e h = ground arith

status-is_none :
    (o ok : Bool) (e : SerialError)
    → o ≡ ok
    → (ok ≡ false → e ≢ no_error)
    → o ≡ is_none (if ok then err_none else of_error e)
status-is_none o true e t f = t
status-is_none o false e t f = t ∙ sym (of_error-is_none e (f refl))

module _ {d : Device} where
  handle_ready_read-port :
      (p : CPort (asio_backend d)) → (handle_ready_read p).0.port.backend.port ≡ p.port.backend.port
  unfolding handle_ready_read CAbi.cps_serial_read SerialPort.read
  handle_ready_read-port p = read-port true (to_size (pos 4096)) p.port.backend

  callback-port :
      (c : CCall) (p : CPort (asio_backend d))
      → (callback c p).0.port.backend.port ≡ p.port.backend.port
  unfolding callback
  callback-port (CAbi.call_ready_read fn user) p = handle_ready_read-port p
  callback-port (CAbi.call_bytes_written fn user n) p = refl
  callback-port (CAbi.call_error fn user e) p = refl

  callbacks-port :
      (cs : List CCall) (p : CPort (asio_backend d))
      → (callbacks cs p).0.port.backend.port ≡ p.port.backend.port
  unfolding callbacks
  callbacks-port [] p = refl
  callbacks-port (c ∷ cs) p = callbacks-port cs (callback c p).0 ∙ callback-port c p

  handle-IsClient : IsClient (handle_client d)
  handle-IsClient = record {
    backend_stored = λ s p. refl;
    handle_port = λ n p. callbacks-port (CAbi.invoke_all p (SerialPort.forward p.port.cbs n)) p;
  }

  -- The code that an open returns is `CPS_ERR_NONE` exactly if the port is open.
  open_handle-is_open :
      IsDevice d
      → (ws : List Completion) (p : CPort (asio_backend d))
      → let (q, calls, e) = open_handle ws p in SerialPort.is_open q.port ≡ is_none e
  unfolding open_handle CAbi.status SerialPort.is_open SerialPort.error last_error
  open_handle-is_open laws ws p =
      let pushed =
        SerialPort.push_config (record (p.port) { mode = to_open_mode mode_readwrite }) in
      let (q, calls, ok) =
        opens (handle_client d) ws pushed.port_name (record p { port = pushed }) in
      let (t, f) =
        opens-Tried handle-IsClient laws ws pushed.port_name (record p { port = pushed }) in
      status-is_none _ ok q.port.backend.error t f

  pub handle-IsLink : IsDevice d → IsLink (handle_link d)
  unfolding SerialPort.is_open
  handle-IsLink laws = record {
    work_open = λ w p. works_one-is_open handle-IsClient w p;
    connect_outcome = λ w name baud p. open_handle-is_open laws w (configure name baud p);
    close_closed = λ w p. closes-is_open handle-IsClient laws w p;
    write_open = λ bytes p.
        unfold CAbi.cps_serial_write SerialPort.write in
        write-is_open bytes (to_size (pos (length bytes))) p.port.backend;
    clear_open = λ p.
        unfold CAbi.cps_serial_clear CAbi.status SerialPort.clear in
        clear-is_open laws (to_directions dir_all) p.port.backend;
  }
