-- ===== src/Asio/Config.antt =====
-- The configuration methods of `AsioBackend`: what is stored, and what is passed on to the port.
use cross_plaform_serial.Common.{
  inl, inr, Option-cases, ℤ, Bool, true, false, Option, none, some, ◌==◌, if◌then◌else◌,
  to_unsigned,
}
use cross_plaform_serial.Types.{
  DataBits, Parity, no_parity, even_parity, odd_parity, space_parity, mark_parity, StopBits,
  one_stop, one_and_half_stop, two_stop, FlowControl, no_flow_control, hardware_control,
  software_control, data_bits_value,
}
use cross_plaform_serial.Device.{
  Device, AsioParity, even, odd, AsioStopBits, one, onepointfive, two, AsioFlowControl, hardware,
  software, PortOption, baud_rate, character_size, parity, stop_bits, flow_control, Termios,
}
use cross_plaform_serial.Asio.State.{Asio}

-- The first `switch` of `applyConfig`: `none` is its default, which sets nothing.
unfoldable pub asio_parity : Parity → Option AsioParity
asio_parity no_parity = some AsioParity.none
asio_parity even_parity = some even
asio_parity odd_parity = some odd
asio_parity space_parity = none
asio_parity mark_parity = none

unfoldable pub asio_stop_bits : StopBits → AsioStopBits
asio_stop_bits one_stop = one
asio_stop_bits two_stop = two
asio_stop_bits one_and_half_stop = onepointfive

unfoldable pub asio_flow_control : FlowControl → AsioFlowControl
asio_flow_control no_flow_control = AsioFlowControl.none
asio_flow_control hardware_control = hardware
asio_flow_control software_control = software

-- Raw mode: no input or output processing, no echo, no signals, no software flow control.
unfoldable pub raw_mode : Termios → Termios
raw_mode t = record t {
  ignbrk = false;
  brkint = false;
  parmrk = false;
  istrip = false;
  inlcr = false;
  igncr = false;
  icrnl = false;
  ixon = false;
  ixoff = false;
  ixany = false;
  echo = false;
  echonl = false;
  icanon = false;
  isig = false;
  iexten = false;
  opost = false;
  vmin = 0;
  vtime = 1;
}

-- The CMSPAR branches: only space and mark parity write `c_cflag`.
unfoldable pub mark_space : Parity → Termios → Termios
mark_space space_parity t = record t { parenb = true; cmspar = true; parodd = false }
mark_space mark_parity t = record t { parenb = true; cmspar = true; parodd = true }
mark_space no_parity t = t
mark_space even_parity t = t
mark_space odd_parity t = t

module _ {d : Device} where
  unfoldable pub set_parity_option : Asio d → d.Port → d.Port
  set_parity_option s p = elim (asio_parity s.parity) [
    | none ↦ p
    | some a ↦ (d.set_option (parity a) p).1
  ]

  -- The body of `applyConfig` on the open port. The error codes are not looked at.
  unfoldable pub configure : Asio d → d.Port → d.Port
  configure s p =
      let p1 = (d.set_option (baud_rate (to_unsigned s.baud)) p).1 in
      let p2 = (d.set_option (character_size (data_bits_value s.data_bits)) p1).1 in
      let p3 = set_parity_option s p2 in
      let p4 = (d.set_option (stop_bits (asio_stop_bits s.stop_bits)) p3).1 in
      (d.set_option (flow_control (asio_flow_control s.flow)) p4).1

  -- The body of `applyNativeTimeouts` on the open port.
  unfoldable pub set_raw : Asio d → d.Port → d.Port
  set_raw s p = elim (d.tcgetattr p) [
    | none ↦ p
    | some t ↦ d.tcsetattr (mark_space s.parity (raw_mode t)) p
  ]

  -- `if (!port_ || !port_->is_open()) return;` before a body that changes the port.
  unfoldable pub on_open_port : (Asio d → d.Port → d.Port) → Asio d → Asio d
  on_open_port body s = elim s.port [
    | none ↦ s
    | some p ↦ if d.is_open p then record s { port = some (body s p) } else s
  ]

  unfoldable pub apply_config : Asio d → Asio d
  unfolding on_open_port configure
  apply_config s = on_open_port configure s

  unfoldable pub apply_native_timeouts : Asio d → Asio d
  unfolding on_open_port set_raw
  apply_native_timeouts s = on_open_port set_raw s

  -- `port_->set_option(o, ec); return !ec;` where the port is open, and true where it is not.
  unfoldable pub set_checked : PortOption → Asio d → Asio d × Bool
  set_checked o s = elim s.port [
    | none ↦ (s, true)
    | some p ↦
        if d.is_open p
        then (record s { port = some (d.set_option o p).1 }, (d.set_option o p).0 == 0)
        else (s, true)
  ]

  unfoldable pub set_baud_rate : ℤ → Asio d → Asio d × Bool
  unfolding set_checked
  set_baud_rate rate s = set_checked (baud_rate (to_unsigned rate)) (record s { baud = rate })

  unfoldable pub set_data_bits : DataBits → Asio d → Asio d × Bool
  unfolding set_checked
  set_data_bits b s = set_checked (character_size (data_bits_value b)) (record s { data_bits = b })

  unfoldable pub set_parity : Parity → Asio d → Asio d × Bool
  unfolding apply_config apply_native_timeouts
  set_parity p s = (apply_native_timeouts (apply_config (record s { parity = p })), true)

  unfoldable pub set_stop_bits : StopBits → Asio d → Asio d × Bool
  unfolding apply_config
  set_stop_bits b s = (apply_config (record s { stop_bits = b }), true)

  unfoldable pub set_flow_control : FlowControl → Asio d → Asio d × Bool
  unfolding apply_config
  set_flow_control f s = (apply_config (record s { flow = f }), true)

  set_parity_option_kept {ℓ} :
      (P : d.Port → Type ℓ)
      → ((o : PortOption) (p : d.Port) → P p → P (d.set_option o p).1)
      → (s : Asio d) (p : d.Port) → P p
      → P (set_parity_option s p)
  unfolding set_parity_option
  set_parity_option_kept P kept s p h = elim (Option-cases (asio_parity s.parity)) [
    | inl e ↦ rw (e, set_parity_option) h
    | inr (a, e) ↦ rw (e, set_parity_option) (kept (parity a) p h)
  ]

  -- What every `set_option` keeps, `applyConfig` keeps.
  pub configure_kept {ℓ} :
      (P : d.Port → Type ℓ)
      → ((o : PortOption) (p : d.Port) → P p → P (d.set_option o p).1)
      → (s : Asio d) (p : d.Port) → P p
      → P (configure s p)
  unfolding configure
  configure_kept P kept s p h =
      kept _ _ (kept _ _ (set_parity_option_kept P kept s _ (kept _ _ (kept _ _ h))))
