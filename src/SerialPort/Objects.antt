-- ===== src/SerialPort/Objects.antt =====
-- The special members of `SerialPort` in src/SerialPort.cpp, on a store of `Impl` objects with
-- addresses: the functions that `wire` gives to a backend hold the address of their object.
use cross_plaform_serial.Common.{
  ℕ, ℤ, pos, Bytes, List, [], Option, none, some, ◌==◌, if◌then◌else◌,
}
use cross_plaform_serial.Types.{
  DataBits, data8, Parity, no_parity, StopBits, one_stop, FlowControl, no_flow_control, OpenMode,
  read_write, Callbacks, Notice,
}
use cross_plaform_serial.Backend.{SerialBackend}
use cross_plaform_serial.SerialPort.{forward, no_callbacks, all_callbacks}

-- What the standard library leaves in a string and in the three functions that were moved from.
pub record MovedFrom : Type 0 where
  pub name_left : Bytes → Bytes
  pub callbacks_left : Callbacks → Callbacks

module _ (b : SerialBackend) where
  -- A backend, with the `this` that its three functions captured.
  pub record Wired : Type 0 where
    pub state : b.State
    pub owner : ℕ

  -- `SerialPort::Impl`; the backend is `none` where the pointer is null.
  pub record Impl : Type 0 where
    pub backend : Option Wired
    pub port_name : Bytes
    pub baud_rate : ℤ
    pub data_bits : DataBits
    pub parity : Parity
    pub stop_bits : StopBits
    pub flow : FlowControl
    pub mode : OpenMode
    pub cbs : Callbacks

  -- The live objects.
  abbrev pub Store : Type 0
  Store = ℕ → Option Impl

module _ {b : SerialBackend} where
  abbrev pub put : ℕ → Option (Impl b) → Store b → Store b
  put a o h x = if x == a then o else h x

  -- `wire`, on the object at the address.
  unfoldable pub wire : ℕ → b.State → Wired b
  wire a s = record { state = b.wire all_callbacks s; owner = a }

  unfoldable pub construct : ℕ → Store b → Store b
  unfolding wire
  construct a h =
      put a
        (some (record {
          backend = some (wire a b.new);
          port_name = [];
          baud_rate = pos 9600;
          data_bits = data8;
          parity = no_parity;
          stop_bits = one_stop;
          flow = no_flow_control;
          mode = read_write;
          cbs = no_callbacks;
        }))
        h

  unfoldable pub destroy : ℕ → Store b → Store b
  destroy a h = put a none h

  -- What is left of an object that was moved from.
  unfoldable pub leave : MovedFrom → Impl b → Impl b
  leave m i = record i {
    backend = none;
    port_name = m.name_left i.port_name;
    cbs = m.callbacks_left i.cbs;
  }

  -- Moving the object at `src` to `dst`, member by member: the constructor there, or the assignment
  -- to the object there, whose backend is destroyed.
  unfoldable pub move_to : MovedFrom → ℕ → ℕ → Store b → Store b
  unfolding leave
  move_to m src dst h = elim (h src) [
    | none ↦ h
    | some i ↦ put dst (some i) (put src (some (leave m i)) h)
  ]

  -- `operator=`, with its test for the same object.
  unfoldable pub move_assign : MovedFrom → ℕ → ℕ → Store b → Store b
  unfolding move_to
  move_assign m src dst h = if src == dst then h else move_to m src dst h

  unfoldable pub set_callbacks_at : ℕ → Callbacks → Store b → Store b
  set_callbacks_at a cbs h = elim (h a) [
    | none ↦ h
    | some i ↦ put a (some (record i { cbs = cbs })) h
  ]

  -- The user callbacks that a notification of a backend makes: its functions look at the object
  -- that they captured. `none` is a call through a destroyed object.
  unfoldable pub notified : Notice → Wired b → Store b → Option (List Notice)
  unfolding forward
  notified n w h = elim (h w.owner) [ none ↦ none | some i ↦ some (forward i.cbs n) ]
