-- ===== src/Android/Run.antt =====
-- The calls on an `AndroidBackend` and those of the Java bridge, in the order in which they take
-- effect.
use cross_plaform_serial.Common.{ℕ, ℤ, Bytes, Bool, List, [], ◌∷◌}
use cross_plaform_serial.Types.{DataBits, Parity, StopBits, FlowControl, Directions, OpenMode}
use cross_plaform_serial.Android.Jvm.{Jvm}
use cross_plaform_serial.Android.State.{Android, NativeCall, native_call}
use cross_plaform_serial.Android.Calls.{
  open_port, close, write, read, clear, clear_error, set_baud_rate, set_data_bits, set_parity,
  set_stop_bits, set_flow_control,
}

-- What can happen while a port is neither opened nor closed, and changes the object.
pub data Action : Type 0 where
  calls_native : NativeCall → Action
  writes : Bytes → ℕ → Action
  reads : Bool → ℕ → Action
  clears : Directions → Action
  clears_error : Action
  sets_baud_rate : ℤ → Action
  sets_data_bits : DataBits → Action
  sets_parity : Parity → Action
  sets_stop_bits : StopBits → Action
  sets_flow_control : FlowControl → Action

pub data Event : Type 0 where
  opens : List NativeCall → Bytes → OpenMode → Event
  closes : List NativeCall → Event
  acts : Action → Event

module _ {j : Jvm} where
  unfoldable pub act : Action → Android j → Android j
  act (calls_native c) s = native_call c s
  act (writes bytes size) s = (write bytes size s).0
  act (reads out most) s = (read out most s).0
  act (clears dirs) s = (clear dirs s).0
  act clears_error s = clear_error s
  act (sets_baud_rate r) s = (set_baud_rate r s).0
  act (sets_data_bits b) s = (set_data_bits b s).0
  act (sets_parity p) s = (set_parity p s).0
  act (sets_stop_bits b) s = (set_stop_bits b s).0
  act (sets_flow_control f) s = (set_flow_control f s).0

  unfoldable pub act_all : List Action → Android j → Android j
  act_all [] s = s
  act_all (a ∷ rest) s = act_all rest (act a s)

  unfoldable pub step : Event → Android j → Android j
  step (opens early name mode) s = (open_port early name mode s).0
  step (closes last) s = close last s
  step (acts a) s = act a s

  unfoldable pub run : List Event → Android j → Android j
  run [] s = s
  run (e ∷ es) s = run es (step e s)
