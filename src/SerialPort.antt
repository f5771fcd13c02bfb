-- ===== src/SerialPort.antt =====
-- src/SerialPort.cpp: the facade over a platform backend. A method that changes the object returns
-- the new one. `close` and `open` pass on what other threads do while they wait.
pub mod Getters
pub mod Contract
pub mod Objects
pub mod Moved
use cross_plaform_serial.Common.{
  ℕ, ℤ, pos, Bytes, Bool, true, false, not, List, [], ◌∷◌, if◌then◌else◌, take, length, is_positive,
  to_size, ◌==◌,
}
use cross_plaform_serial.Types.{
  DataBits, data8, Parity, no_parity, StopBits, one_stop, FlowControl, no_flow_control, Directions,
  OpenMode, read_write, SerialError, Callbacks, Notice, ready_read, bytes_written, error_notice,
}
use cross_plaform_serial.Backend.{SerialBackend}
use cross_plaform_serial.PortInfo.{SerialPortInfo}

module _ (b : SerialBackend) where
  -- The members of `SerialPort::Impl`.
  pub record SerialPort : Type 0 where
    pub backend : b.State
    pub port_name : Bytes
    pub baud_rate : ℤ
    pub data_bits : DataBits
    pub parity : Parity
    pub stop_bits : StopBits
    pub flow : FlowControl
    pub mode : OpenMode
    pub cbs : Callbacks

abbrev pub no_callbacks : Callbacks
no_callbacks = record { on_ready_read = false; on_bytes_written = false; on_error = false }

-- What `wire` assigns: three functions, each of which looks at the user's callback when called.
abbrev pub all_callbacks : Callbacks
all_callbacks = record { on_ready_read = true; on_bytes_written = true; on_error = true }

-- The bodies of those functions: the calls of user callbacks that a backend's notification makes.
unfoldable pub forward : Callbacks → Notice → List Notice
forward cbs ready_read = if cbs.on_ready_read then ready_read ∷ [] else []
forward cbs (bytes_written n) = if cbs.on_bytes_written then bytes_written n ∷ [] else []
forward cbs (error_notice e) = if cbs.on_error then error_notice e ∷ [] else []

module _ {b : SerialBackend} where
  unfoldable pub new : SerialPort b
  new = record {
    backend = b.wire all_callbacks b.new;
    port_name = [];
    baud_rate = pos 9600;
    data_bits = data8;
    parity = no_parity;
    stop_bits = one_stop;
    flow = no_flow_control;
    mode = read_write;
    cbs = no_callbacks;
  }

  unfoldable pub set_port_name : Bytes → SerialPort b → SerialPort b
  set_port_name name p = record p { port_name = name }

  unfoldable pub new_named : Bytes → SerialPort b
  unfolding new set_port_name
  new_named name = set_port_name name new

  unfoldable pub new_from_info : SerialPortInfo → SerialPort b
  unfolding new_named
  new_from_info i = new_named i.port_name

  -- The results of the setters are not looked at.
  unfoldable pub push_config : SerialPort b → SerialPort b
  push_config p =
      let s1 = (b.set_baud_rate p.baud_rate p.backend).0 in
      let s2 = (b.set_data_bits p.data_bits s1).0 in
      let s3 = (b.set_parity p.parity s2).0 in
      let s4 = (b.set_stop_bits p.stop_bits s3).0 in
      record p { backend = (b.set_flow_control p.flow s4).0 }

  unfoldable pub open_port : b.Schedule → OpenMode → SerialPort b → SerialPort b × Bool
  open_port w m p =
      let q = push_config (record p { mode = m }) in
      let r = b.open_port w q.port_name m q.backend in (record q { backend = r.0 }, r.1)

  unfoldable pub close : b.Schedule → SerialPort b → SerialPort b
  close w p = record p { backend = b.close w p.backend }

  unfoldable pub is_open : SerialPort b → Bool
  is_open p = b.is_open p.backend

  unfoldable pub write : Bytes → ℕ → SerialPort b → SerialPort b × ℤ
  write bytes size p = let r = b.write bytes size p.backend in (record p { backend = r.0 }, r.1)

  -- The overload for a `std::vector`.
  unfoldable pub write_vector : Bytes → SerialPort b → SerialPort b × ℤ
  unfolding write
  write_vector bytes p = if length bytes == 0 then (p, pos 0) else write bytes (length bytes) p

  unfoldable pub read : Bool → ℕ → SerialPort b → SerialPort b × ℤ × Bytes
  read out most p =
      let (s, n, bytes) = b.read out most p.backend in (record p { backend = s }, n, bytes)

  -- The vector has room for what is available and is cut to what was read.
  unfoldable pub read_all : SerialPort b → SerialPort b × Bytes
  read_all p =
      let n = b.bytes_available p.backend in
      let (s, got, bytes) = b.read true (to_size n) p.backend in
      if not (is_positive n)
      then (p, [])
      else if not (is_positive got)
      then (record p { backend = s }, [])
      else (record p { backend = s }, take (to_size got) bytes)

  unfoldable pub set_baud_rate : ℤ → SerialPort b → SerialPort b × Bool
  set_baud_rate rate p =
      let r = b.set_baud_rate rate p.backend in (record p { baud_rate = rate; backend = r.0 }, r.1)

  unfoldable pub set_data_bits : DataBits → SerialPort b → SerialPort b × Bool
  set_data_bits v p =
      let r = b.set_data_bits v p.backend in (record p { data_bits = v; backend = r.0 }, r.1)

  unfoldable pub set_parity : Parity → SerialPort b → SerialPort b × Bool
  set_parity v p = let r = b.set_parity v p.backend in (record p { parity = v; backend = r.0 }, r.1)

  unfoldable pub set_stop_bits : StopBits → SerialPort b → SerialPort b × Bool
  set_stop_bits v p =
      let r = b.set_stop_bits v p.backend in (record p { stop_bits = v; backend = r.0 }, r.1)

  unfoldable pub set_flow_control : FlowControl → SerialPort b → SerialPort b × Bool
  set_flow_control v p =
      let r = b.set_flow_control v p.backend in (record p { flow = v; backend = r.0 }, r.1)

  unfoldable pub clear : Directions → SerialPort b → SerialPort b × Bool
  clear dirs p = let r = b.clear dirs p.backend in (record p { backend = r.0 }, r.1)

  unfoldable pub flush : SerialPort b → SerialPort b × Bool
  flush p = let r = b.flush p.backend in (record p { backend = r.0 }, r.1)

  unfoldable pub bytes_available : SerialPort b → ℤ
  bytes_available p = b.bytes_available p.backend

  unfoldable pub bytes_to_write : SerialPort b → ℤ
  bytes_to_write p = b.bytes_to_write p.backend

  unfoldable pub error : SerialPort b → SerialError
  error p = b.last_error p.backend

  unfoldable pub clear_error : SerialPort b → SerialPort b
  clear_error p = record p { backend = b.clear_error p.backend }

  unfoldable pub set_callbacks : Callbacks → SerialPort b → SerialPort b
  set_callbacks cbs p = record p { cbs = cbs }
