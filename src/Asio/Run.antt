-- ===== src/Asio/Run.antt =====
-- The calls on an `AsioBackend` and the handlers of its worker thread, in the order in which they
-- take effect. A call and a handler are one step each; only a call that closes the port has
-- handlers inside it.
use cross_plaform_serial.Common.{ℕ, ℤ, Bytes, Bool, List, [], ◌∷◌}
use cross_plaform_serial.Types.{DataBits, Parity, StopBits, FlowControl, Directions, OpenMode}
use cross_plaform_serial.Device.{Device}
use cross_plaform_serial.Asio.State.{Asio, Completion, clear_error}
use cross_plaform_serial.Asio.Config.{
  set_baud_rate, set_data_bits, set_parity, set_stop_bits, set_flow_control,
}
use cross_plaform_serial.Asio.Io.{work, write, read, flush, clear}
use cross_plaform_serial.Asio.Lifecycle.{close, open_port}

-- What can happen while a port is neither opened nor closed.
pub data Action : Type 0 where
  works : Completion → Action
  writes : Bytes → ℕ → Action
  reads : Bool → ℕ → Action
  sets_baud_rate : ℤ → Action
  sets_data_bits : DataBits → Action
  sets_parity : Parity → Action
  sets_stop_bits : StopBits → Action
  sets_flow_control : FlowControl → Action
  flushes : Action
  clears : Directions → Action
  clears_error : Action

pub data Event : Type 0 where
  opens : List Completion → Bytes → OpenMode → Event
  closes : List Completion → Event
  acts : Action → Event

module _ {d : Device} where
  unfoldable pub act : Action → Asio d → Asio d
  act (works c) s = work c s
  act (writes bytes size) s = (write bytes size s).0
  act (reads out most) s = (read out most s).0
  act (sets_baud_rate r) s = (set_baud_rate r s).0
  act (sets_data_bits b) s = (set_data_bits b s).0
  act (sets_parity p) s = (set_parity p s).0
  act (sets_stop_bits b) s = (set_stop_bits b s).0
  act (sets_flow_control f) s = (set_flow_control f s).0
  act flushes s = (flush s).0
  act (clears dirs) s = (clear dirs s).0
  act clears_error s = clear_error s

  unfoldable pub act_all : List Action → Asio d → Asio d
  act_all [] s = s
  act_all (a ∷ rest) s = act_all rest (act a s)

  unfoldable pub step : Event → Asio d → Asio d
  step (opens last name mode) s = (open_port last name mode s).0
  step (closes last) s = close last s
  step (acts a) s = act a s

  unfoldable pub run : List Event → Asio d → Asio d
  run [] s = s
  run (e ∷ es) s = run es (step e s)
