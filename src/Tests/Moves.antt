-- ===== src/Tests/Moves.antt =====
-- The special members of `SerialPort` over the desktop backend on the simulated line.
use cross_plaform_serial.Common.{false, pos, [], none, some, ◌≡◌, refl, arith}
use cross_plaform_serial.Types.{ready_read, data8, no_parity, one_stop, no_flow_control, read_write}
use cross_plaform_serial.SerialPort.{forward, all_callbacks, no_callbacks}
use cross_plaform_serial.SerialPort.Objects.{
  MovedFrom, Impl, Wired, Store, construct, set_callbacks_at, move_assign, move_to, destroy,
  notified, wire,
}
use cross_plaform_serial.SerialPort.Moved.{moved_callbacks}
use cross_plaform_serial.Tests.Interface.{desktop}

-- A library that leaves moved strings and functions empty.
abbrev empties : MovedFrom
empties = record {
  name_left = λ name. [];
  callbacks_left =
      λ cbs. record { on_ready_read = false; on_bytes_written = false; on_error = false };
}

-- The wiring of the port at the address 1, and the port with its callbacks set.
abbrev wired : Wired desktop
wired = wire 1 desktop.new

abbrev port : Impl desktop
port = record {
  backend = some wired;
  port_name = [];
  baud_rate = pos 9600;
  data_bits = data8;
  parity = no_parity;
  stop_bits = one_stop;
  flow = no_flow_control;
  mode = read_write;
  cbs = all_callbacks;
}

objects : Store desktop
objects = set_callbacks_at 1 all_callbacks (construct 1 (λ a. none))

-- Moved to the address 2, where callbacks are set again.
moved_callbacks_example :
    let moved = set_callbacks_at 2 all_callbacks (move_assign empties 1 2 objects) in
    (notified ready_read wired objects ≡ some (forward all_callbacks ready_read))
    × (moved 2 ≡ some port)
    × (move_to empties 1 2 objects ≡ move_assign empties 1 2 objects)
    × (notified ready_read wired moved ≡ some (forward no_callbacks ready_read))
    × (notified ready_read wired (destroy 1 moved) ≡ none)
unfolding objects construct set_callbacks_at wire
moved_callbacks_example =
    moved_callbacks empties 1 2 objects port wired all_callbacks ready_read refl refl refl
      (omega arith)
