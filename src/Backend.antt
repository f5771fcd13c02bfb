-- ===== src/Backend.antt =====
-- src/detail/SerialBackend.hpp: the interface between `SerialPort` and a platform, and the part of
-- its contract that the facade and the C interface rely on.
use cross_plaform_serial.Common.{
  ℕ, ℤ, Bytes, Bool, true, false, length, take, drop, signed64, minus_one, ◌≡◌, ◌≢◌, ◌⊎◌,
}
use cross_plaform_serial.Types.{
  DataBits, Parity, StopBits, FlowControl, Directions, OpenMode, SerialError, no_error,
  not_open_error, Callbacks,
}

-- The five settings that a backend stores.
pub record Config : Type 0 where
  pub baud : ℤ
  pub data_bits : DataBits
  pub parity : Parity
  pub stop_bits : StopBits
  pub flow : FlowControl

-- The virtual methods. A `Schedule` is what other threads do inside a call that waits for them.
-- `wire` assigns the three `std::function` members. `read` is told whether its pointer is non-null
-- and returns, beside the count, the bytes that it writes there. `new` is the constructor.
pub record SerialBackend : Type 1 where
  pub State : Type 0
  pub Schedule : Type 0
  pub new : State
  pub wire : Callbacks → State → State
  pub open_port : Schedule → Bytes → OpenMode → State → State × Bool
  pub close : Schedule → State → State
  pub is_open : State → Bool
  pub set_baud_rate : ℤ → State → State × Bool
  pub set_data_bits : DataBits → State → State × Bool
  pub set_parity : Parity → State → State × Bool
  pub set_stop_bits : StopBits → State → State × Bool
  pub set_flow_control : FlowControl → State → State × Bool
  pub write : Bytes → ℕ → State → State × ℤ
  pub read : Bool → ℕ → State → State × ℤ × Bytes
  pub bytes_available : State → ℤ
  pub bytes_to_write : State → ℤ
  pub flush : State → State × Bool
  pub clear : Directions → State → State × Bool
  pub last_error : State → SerialError
  pub clear_error : State → State

-- What a client may see of the state: the bytes that wait to be read and the stored settings.
pub record View (b : SerialBackend) : Type 0 where
  pub buffer : b.State → Bytes
  pub config : b.State → Config

-- What a client may rely on, in terms of the view.
pub record IsBackend (b : SerialBackend) (view : View b) : Type 0 where
  pub available : (s : b.State) → b.bytes_available s ≡ signed64 (length (view.buffer s))
  pub read_taken : (most : ℕ) (s : b.State) → (b.read true most s).2 ≡ take most (view.buffer s)
  pub read_left :
      (most : ℕ) (s : b.State) → view.buffer (b.read true most s).0 ≡ drop most (view.buffer s)
  pub read_count :
      (most : ℕ) (s : b.State) → (b.read true most s).1 ≡ signed64 (length (b.read true most s).2)
  pub baud_stored :
      (r : ℤ) (s : b.State)
      → view.config (b.set_baud_rate r s).0 ≡ record (view.config s) { baud = r }
  pub data_bits_stored :
      (v : DataBits) (s : b.State)
      → view.config (b.set_data_bits v s).0 ≡ record (view.config s) { data_bits = v }
  pub parity_stored :
      (v : Parity) (s : b.State)
      → view.config (b.set_parity v s).0 ≡ record (view.config s) { parity = v }
  pub stop_bits_stored :
      (v : StopBits) (s : b.State)
      → view.config (b.set_stop_bits v s).0 ≡ record (view.config s) { stop_bits = v }
  pub flow_stored :
      (v : FlowControl) (s : b.State)
      → view.config (b.set_flow_control v s).0 ≡ record (view.config s) { flow = v }
  pub baud_open : (r : ℤ) (s : b.State) → b.is_open (b.set_baud_rate r s).0 ≡ b.is_open s
  pub data_bits_open :
      (v : DataBits) (s : b.State) → b.is_open (b.set_data_bits v s).0 ≡ b.is_open s
  pub parity_open : (v : Parity) (s : b.State) → b.is_open (b.set_parity v s).0 ≡ b.is_open s
  pub stop_bits_open :
      (v : StopBits) (s : b.State) → b.is_open (b.set_stop_bits v s).0 ≡ b.is_open s
  pub flow_open :
      (v : FlowControl) (s : b.State) → b.is_open (b.set_flow_control v s).0 ≡ b.is_open s
  pub open_config :
      (w : b.Schedule) (name : Bytes) (m : OpenMode) (s : b.State)
      → view.config (b.open_port w name m s).0 ≡ view.config s
  -- An open of a closed port succeeds with no error, or fails with one.
  pub open_outcome :
      (w : b.Schedule) (name : Bytes) (m : OpenMode) (s : b.State)
      → b.is_open s ≡ false
      → (let r = b.open_port w name m s in
          ((r.1 ≡ true) × (b.is_open r.0 ≡ true) × (b.last_error r.0 ≡ no_error))
          ⊎ ((r.1 ≡ false) × (b.is_open r.0 ≡ false) × (b.last_error r.0 ≢ no_error)))
  pub close_closed : (w : b.Schedule) (s : b.State) → b.is_open (b.close w s) ≡ false
  pub write_closed :
      (bytes : Bytes) (n : ℕ) (s : b.State)
      → b.is_open s ≡ false
      → ((b.write bytes n s).1 ≡ minus_one) × (b.last_error (b.write bytes n s).0 ≡ not_open_error)
  pub error_cleared : (s : b.State) → b.last_error (b.clear_error s) ≡ no_error
