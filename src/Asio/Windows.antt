-- ===== src/Asio/Windows.antt =====
-- The Windows branches of src/detail/AsioBackend.cpp. All else is the same code on both systems.
use Prim.Native.Nat.{bit_and, bit_or}
use cross_plaform_serial.Common.{ℕ, Bool, true, false, Option, none, some, ◌==◌, if◌then◌else◌}
use cross_plaform_serial.Types.{
  SerialError, no_error, device_not_found_error, permission_error, resource_error, unknown_error,
  Parity, no_parity, even_parity, odd_parity, space_parity, mark_parity, Directions,
  directions_value,
}
use cross_plaform_serial.Device.{Device, ErrorCode}
use cross_plaform_serial.Asio.State.{Asio}
use cross_plaform_serial.Asio.Config.{on_open_port}

-- `COMMTIMEOUTS`
pub record CommTimeouts : Type 0 where
  pub read_interval_timeout : ℕ
  pub read_total_timeout_multiplier : ℕ
  pub read_total_timeout_constant : ℕ
  pub write_total_timeout_multiplier : ℕ
  pub write_total_timeout_constant : ℕ

-- `DCB`, by the members that the code writes.
pub record Dcb : Type 0 where
  pub f_parity : Bool
  pub parity : ℕ
  -- every other member
  pub others : ℕ

-- What is called of the system on the handle of an open port. `GetCommState` is `none` when it
-- fails; the last two say whether they returned a value other than 0.
pub record Comm (d : Device) : Type 0 where
  pub set_comm_timeouts : CommTimeouts → d.Port → d.Port
  pub get_comm_state : d.Port → Option Dcb
  pub set_comm_state : Dcb → d.Port → d.Port
  pub flush_file_buffers : d.Port → Bool × d.Port
  pub purge_comm : ℕ → d.Port → Bool × d.Port

-- ERROR_FILE_NOT_FOUND, ERROR_ACCESS_DENIED and ERROR_SHARING_VIOLATION.
unfoldable pub map_error : ErrorCode → SerialError
map_error ec =
    if ec == 0
    then no_error
    else if ec == 2
    then device_not_found_error
    else if ec == 5
    then permission_error
    else if ec == 32
    then resource_error
    else unknown_error

abbrev pub comm_timeouts : CommTimeouts
comm_timeouts = record {
  read_interval_timeout = 50;
  read_total_timeout_multiplier = 0;
  read_total_timeout_constant = 0;
  write_total_timeout_multiplier = 0;
  write_total_timeout_constant = 0;
}

-- MARKPARITY is 3 and SPACEPARITY is 4; `none` is a parity that asio has set.
unfoldable pub dcb_parity : Parity → Option ℕ
dcb_parity space_parity = some 4
dcb_parity mark_parity = some 3
dcb_parity no_parity = none
dcb_parity even_parity = none
dcb_parity odd_parity = none

-- The flags of `PurgeComm`.
abbrev purge_txabort : ℕ
purge_txabort = 1

abbrev pub purge_rxabort : ℕ
purge_rxabort = 2

abbrev purge_txclear : ℕ
purge_txclear = 4

abbrev purge_rxclear : ℕ
purge_rxclear = 8

unfoldable pub purge_flags : Directions → ℕ
purge_flags dirs =
    let rx = bit_or purge_rxabort purge_rxclear in
    let tx = bit_or purge_txabort purge_txclear in
    let q = if bit_and (directions_value dirs) 1 == 0 then 0 else bit_or 0 rx in
    if bit_and (directions_value dirs) 2 == 0 then q else bit_or q tx

module _ {d : Device} (comm : Comm d) where
  -- The body of `applyNativeTimeouts` on the open port.
  unfoldable pub set_native : Asio d → d.Port → d.Port
  unfolding dcb_parity
  set_native s p =
      let q = comm.set_comm_timeouts comm_timeouts p in
      elim (dcb_parity s.parity) [
        | none ↦ q
        | some v ↦ elim (comm.get_comm_state q) [
          | none ↦ q
          | some dcb ↦ comm.set_comm_state (record dcb { f_parity = true; parity = v }) q
        ]
      ]

  unfoldable pub apply_native_timeouts : Asio d → Asio d
  unfolding on_open_port set_native
  apply_native_timeouts s = on_open_port set_native s

  unfoldable pub flush : Asio d → Asio d × Bool
  flush s = elim s.port [
    | none ↦ (s, false)
    | some p ↦
        let r = comm.flush_file_buffers p in
        if d.is_open p then (record s { port = some r.1 }, r.0) else (s, false)
  ]

  unfoldable pub clear : Directions → Asio d → Asio d × Bool
  unfolding purge_flags
  clear dirs s = elim s.port [
    | none ↦ (s, false)
    | some p ↦
        let r = comm.purge_comm (purge_flags dirs) p in
        if d.is_open p then (record s { port = some r.1 }, r.0) else (s, false)
  ]
