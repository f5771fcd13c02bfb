-- ===== src/Asio/Settings.antt =====
-- The settings that an `AsioBackend` stores, through its calls and handlers.
use cross_plaform_serial.Common.{List, [], ◌∷◌, ◌≡◌, refl, ◌∙◌, ap, arith}
use cross_plaform_serial.Backend.{Config}
use cross_plaform_serial.Device.{Device}
use cross_plaform_serial.Asio.State.{Asio, clear_error}
use cross_plaform_serial.Asio.Config.{
  configure, set_baud_rate, set_data_bits, set_stop_bits, set_flow_control, apply_config,
}
use cross_plaform_serial.Asio.Io.{work_cases, write, read, flush, clear}
use cross_plaform_serial.Asio.Run.{
  Action, works, writes, reads, sets_baud_rate, sets_data_bits, sets_parity, sets_stop_bits,
  sets_flow_control, flushes, clears, clears_error, act, act_all,
}
use cross_plaform_serial.Asio.Implements.{
  stored, on_open_port-stored, set_checked-stored, parity_kept, run_handler-stored,
}

-- What an action makes of the settings.
abbrev pub configured : Action → Config → Config
configured (sets_baud_rate r) c = record c { baud = r }
configured (sets_data_bits v) c = record c { data_bits = v }
configured (sets_parity v) c = record c { parity = v }
configured (sets_stop_bits v) c = record c { stop_bits = v }
configured (sets_flow_control v) c = record c { flow = v }
configured (works h) c = c
configured (writes bytes size) c = c
configured (reads out most) c = c
configured flushes c = c
configured (clears dirs) c = c
configured clears_error c = c

abbrev pub configured_all : List Action → Config → Config
configured_all [] c = c
configured_all (a ∷ acts) c = configured_all acts (configured a c)

module _ {d : Device} where
  act-stored : (a : Action) (s : Asio d) → stored (act a s) ≡ configured a (stored s)
  unfolding act set_baud_rate set_data_bits set_stop_bits set_flow_control clear_error apply_config
  act-stored (works c) s =
      work_cases (λ t. stored t ≡ stored s) c s refl (λ h _ _. run_handler-stored h c _)
  act-stored (writes bytes size) s = unfold write in ground arith
  act-stored (reads out most) s = unfold read in ground arith
  act-stored (sets_baud_rate r) s = set_checked-stored _ (record s { baud = r })
  act-stored (sets_data_bits v) s = set_checked-stored _ (record s { data_bits = v })
  act-stored (sets_parity v) s = parity_kept v s
  act-stored (sets_stop_bits v) s = on_open_port-stored configure (record s { stop_bits = v })
  act-stored (sets_flow_control v) s = on_open_port-stored configure (record s { flow = v })
  act-stored flushes s = unfold flush in ground arith
  act-stored (clears dirs) s = unfold clear in ground arith
  act-stored clears_error s = refl

  -- The stored settings are what the actions made of them, one after the other.
  pub act_all-stored :
      (acts : List Action) (s : Asio d) → stored (act_all acts s) ≡ configured_all acts (stored s)
  unfolding act_all
  act_all-stored [] s = refl
  act_all-stored (a ∷ acts) s =
      act_all-stored acts (act a s) ∙ ap (configured_all acts) (act-stored a s)
