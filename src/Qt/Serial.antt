-- ===== src/Qt/Serial.antt =====
-- `SerialController` of examples/qt_serial/serialcontroller.cpp over the desktop backend: what its
-- calls and callbacks do with `port_`.
use cross_plaform_serial.Asio.State.{Completion}
use Prim.Native.String.{String}
use cross_plaform_serial.Common.{
  is_positive, not, if-cases, to_size, ℤ, Bytes, Bool, true, false, List, [], ◌∷◌, ◌++◌, ◌≡◌, refl,
  ◌∙◌, length,
}
use cross_plaform_serial.Types.{
  data8, no_parity, one_stop, no_flow_control, all_directions, read_write, SerialError, no_error,
  device_not_found_error, permission_error, open_error, parity_error, framing_error, write_error,
  read_error, resource_error, unsupported_operation_error, unknown_error, timeout_error,
  not_open_error, Notice, ready_read, bytes_written, error_notice,
}
use cross_plaform_serial.Device.{Device, IsDevice}
use cross_plaform_serial.Asio.Implements.{asio_backend}
use cross_plaform_serial.SerialPort
use cross_plaform_serial.Asio.Io
use cross_plaform_serial.SerialPort.{SerialPort}
use cross_plaform_serial.Qt.Link.{Link, IsLink, Call, received, erred}
use cross_plaform_serial.Qt.Desktop.{
  read-port, clear-is_open, write-is_open, closes-is_open, opens-Tried, works_one-is_open, Client,
  IsClient, works_one, closes, opens,
}

unfoldable pub error_to_string : SerialError → String
error_to_string no_error = "no error"
error_to_string device_not_found_error = "device not found"
error_to_string permission_error = "permission denied"
error_to_string open_error = "open error"
error_to_string resource_error = "device lost / resource error"
error_to_string write_error = "write error"
error_to_string read_error = "read error"
error_to_string timeout_error = "timeout"
error_to_string not_open_error = "port not open"
error_to_string parity_error = "serial error"
error_to_string framing_error = "serial error"
error_to_string unsupported_operation_error = "serial error"
error_to_string unknown_error = "serial error"

unfoldable pub on_cps_error : SerialError → List Call
unfolding error_to_string
on_cps_error no_error = []
on_cps_error e = erred (error_to_string e) ∷ []

module _ {d : Device} where
  -- The port of a new controller: the second callback is an empty `std::function`.
  unfoldable pub new_port : SerialPort (asio_backend d)
  unfolding SerialPort.new SerialPort.set_callbacks
  new_port =
      SerialPort.set_callbacks
        (record { on_ready_read = true; on_bytes_written = false; on_error = true }) SerialPort.new

  unfoldable pub on_ready_read :
      SerialPort (asio_backend d) → SerialPort (asio_backend d) × List Call
  unfolding SerialPort.read_all
  on_ready_read p =
      let (q, bytes) = SerialPort.read_all p in
      (q, elim bytes [ [] ↦ [] | b ∷ bs ↦ received (b ∷ bs) ∷ [] ])

  -- The lambdas that the constructor passes to `setCallbacks`.
  unfoldable pub callback :
      Notice → SerialPort (asio_backend d) → SerialPort (asio_backend d) × List Call
  unfolding on_ready_read on_cps_error
  callback ready_read p = on_ready_read p
  callback (bytes_written n) p = (p, [])
  callback (error_notice e) p = (p, on_cps_error e)

  -- A notification of the backend, through the functions that `wire` assigned.
  unfoldable pub callbacks :
      List Notice → SerialPort (asio_backend d) → SerialPort (asio_backend d) × List Call
  unfolding callback
  callbacks [] p = (p, [])
  callbacks (n ∷ ns) p =
      let (q, calls) = callback n p in let (r, rest) = callbacks ns q in (r, calls ++ rest)

  -- The calls of the thread of `connectPort` before `open`.
  unfoldable pub configure : Bytes → ℤ → SerialPort (asio_backend d) → SerialPort (asio_backend d)
  unfolding SerialPort.set_port_name SerialPort.set_baud_rate SerialPort.set_data_bits
      SerialPort.set_parity SerialPort.set_stop_bits SerialPort.set_flow_control
      SerialPort.clear_error
  configure name baud p =
      let p1 = SerialPort.set_port_name name p in
      let p2 = (SerialPort.set_baud_rate baud p1).0 in
      let p3 = (SerialPort.set_data_bits data8 p2).0 in
      let p4 = (SerialPort.set_parity no_parity p3).0 in
      let p5 = (SerialPort.set_stop_bits one_stop p4).0 in
      let p6 = (SerialPort.set_flow_control no_flow_control p5).0 in SerialPort.clear_error p6

abbrev pub serial_client : (d : Device) → Client d
serial_client d = record {
  Port = SerialPort (asio_backend d);
  backend = λ p. p.backend;
  with_backend = λ s p. record p { backend = s };
  handle = λ n p. callbacks (SerialPort.forward p.cbs n) p;
}

-- `port_.open(cps::OpenMode::ReadWrite)` pushes the settings and opens the backend.
abbrev pub serial_link : Device → Link
serial_link d = record {
  Port = SerialPort (asio_backend d);
  Step = Completion;
  Schedule = List Completion;
  Result = Bool;
  is_open = SerialPort.is_open;
  work = works_one (serial_client d);
  connect = λ ws name baud p.
      opens (serial_client d) ws name
        (SerialPort.push_config (record (configure name baud p) { mode = read_write }));
  is_success = λ ok. ok;
  failure = λ ok p. error_to_string (SerialPort.error p);
  close = closes (serial_client d);
  write = λ bytes p. SerialPort.write bytes (length bytes) p;
  clear = λ p. (SerialPort.clear all_directions p).0;
}

module _ {d : Device} where
  on_ready_read-port :
      (p : SerialPort (asio_backend d)) → (on_ready_read p).0.backend.port ≡ p.backend.port
  unfolding on_ready_read SerialPort.read_all
  on_ready_read-port p =
      let r = Io.read true (to_size (Io.bytes_available p.backend)) p.backend in
      let e : r.0.port ≡ p.backend.port =
        read-port true (to_size (Io.bytes_available p.backend)) p.backend in
      if-cases {A = SerialPort (asio_backend d) × Bytes} (λ t. t.0.backend.port ≡ p.backend.port)
        (not (is_positive (Io.bytes_available p.backend))) (λ _. refl)
        (λ _.
          if-cases {A = SerialPort (asio_backend d) × Bytes}
            (λ t. t.0.backend.port ≡ p.backend.port) (not (is_positive r.1)) (λ _. e) (λ _. e))

  callback-port :
      (n : Notice) (p : SerialPort (asio_backend d))
      → (callback n p).0.backend.port ≡ p.backend.port
  unfolding callback
  callback-port ready_read p = on_ready_read-port p
  callback-port (bytes_written n) p = refl
  callback-port (error_notice e) p = refl

  callbacks-port :
      (ns : List Notice) (p : SerialPort (asio_backend d))
      → (callbacks ns p).0.backend.port ≡ p.backend.port
  unfolding callbacks
  callbacks-port [] p = refl
  callbacks-port (n ∷ ns) p = callbacks-port ns (callback n p).0 ∙ callback-port n p

  serial-IsClient : IsClient (serial_client d)
  serial-IsClient = record {
    backend_stored = λ s p. refl;
    handle_port = λ n p. callbacks-port (SerialPort.forward p.cbs n) p;
  }

  pub serial-IsLink : IsDevice d → IsLink (serial_link d)
  unfolding SerialPort.is_open
  serial-IsLink laws = record {
    work_open = λ w p. works_one-is_open serial-IsClient w p;
    connect_outcome = λ w name baud p. (opens-Tried serial-IsClient laws w _ _).0;
    close_closed = λ w p. closes-is_open serial-IsClient laws w p;
    write_open = λ bytes p. unfold SerialPort.write in write-is_open bytes (length bytes) p.backend;
    clear_open = λ p. unfold SerialPort.clear in clear-is_open laws all_directions p.backend;
  }
