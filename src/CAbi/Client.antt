-- ===== src/CAbi/Client.antt =====
-- What a C program does with a handle over the desktop backend, with the handlers of the worker
-- thread between its calls.
use cross_plaform_serial.Common.{
  ℕ, ℤ, Bytes, Bool, List, [], ◌∷◌, ◌++◌, ◌≡◌, refl, Option, none, some, to_size,
}
use cross_plaform_serial.Device.{Device}
use cross_plaform_serial.Asio.State.{Completion}
use cross_plaform_serial.Asio.Io.{work}
use cross_plaform_serial.Asio.Run.{
  Action, works, writes, reads, sets_baud_rate, sets_data_bits, sets_parity, sets_stop_bits,
  sets_flow_control, flushes, clears, clears_error, act, act_all,
}
use cross_plaform_serial.Asio.Implements.{asio_backend}
use cross_plaform_serial.SerialPort
use cross_plaform_serial.SerialPort.Contract.{settings}
use cross_plaform_serial.Asio.Settings.{configured_all}
use cross_plaform_serial.CAbi.{
  CPort, CCallbacks, status, register, cps_serial_set_port_name, cps_serial_open, cps_serial_close,
  cps_serial_write, cps_serial_read, cps_serial_set_baud_rate, cps_serial_set_data_bits,
  cps_serial_set_parity, cps_serial_set_stop_bits, cps_serial_set_flow_control, cps_serial_flush,
  cps_serial_clear, cps_serial_clear_error, cps_serial_set_callbacks,
}
use cross_plaform_serial.CAbi.Enums.{
  CDataBits, CParity, CStopBits, CFlowControl, CDirections, COpenMode, to_data_bits, to_parity,
  to_stop_bits, to_flow_control, to_directions,
}

-- A call that neither opens nor closes the port, or a handler of the worker thread.
pub data CAction : Type 0 where
  c_works : Completion → CAction
  c_writes : Bytes → ℤ → CAction
  c_reads : Bool → ℤ → CAction
  c_sets_port_name : Option Bytes → CAction
  c_sets_baud_rate : ℤ → CDirections → CAction
  c_sets_data_bits : CDataBits → CAction
  c_sets_parity : CParity → CAction
  c_sets_stop_bits : CStopBits → CAction
  c_sets_flow_control : CFlowControl → CAction
  c_sets_callbacks : Option CCallbacks → ℕ → CAction
  c_flushes : CAction
  c_clears : CDirections → CAction
  c_clears_error : CAction

pub data CEvent : Type 0 where
  c_opens : List Completion → COpenMode → CEvent
  c_closes : List Completion → CEvent
  c_acts : CAction → CEvent

abbrev pub Handle : Device → Type 0
Handle d = Option (CPort (asio_backend d))

module _ {d : Device} where
  abbrev pub backend_work : Completion → Handle d → Handle d
  backend_work c none = none
  backend_work c (some p) =
      some (record p { port = record (p.port) { backend = work c p.port.backend } })

  unfoldable pub c_act : CAction → Handle d → Handle d
  c_act (c_works c) p = backend_work c p
  c_act (c_writes bytes size) p = (cps_serial_write p bytes size).0
  c_act (c_reads out most) p = (cps_serial_read p out most).0
  c_act (c_sets_port_name name) p = (cps_serial_set_port_name p name).0
  c_act (c_sets_baud_rate r dir) p = (cps_serial_set_baud_rate p r dir).0
  c_act (c_sets_data_bits v) p = (cps_serial_set_data_bits p v).0
  c_act (c_sets_parity v) p = (cps_serial_set_parity p v).0
  c_act (c_sets_stop_bits v) p = (cps_serial_set_stop_bits p v).0
  c_act (c_sets_flow_control v) p = (cps_serial_set_flow_control p v).0
  c_act (c_sets_callbacks cbs user) p = cps_serial_set_callbacks p cbs user
  c_act c_flushes p = (cps_serial_flush p).0
  c_act (c_clears dir) p = (cps_serial_clear p dir).0
  c_act c_clears_error p = cps_serial_clear_error p

  unfoldable pub c_act_all : List CAction → Handle d → Handle d
  c_act_all [] p = p
  c_act_all (a ∷ rest) p = c_act_all rest (c_act a p)

  unfoldable pub c_step : CEvent → Handle d → Handle d
  c_step (c_opens last mode) p = (cps_serial_open last p mode).0
  c_step (c_closes last) p = cps_serial_close last p
  c_step (c_acts a) p = c_act a p

  unfoldable pub c_run : List CEvent → Handle d → Handle d
  c_run [] p = p
  c_run (e ∷ es) p = c_run es (c_step e p)

-- What the backend is asked to do.
abbrev pub lowered : CAction → List Action
lowered (c_works c) = works c ∷ []
lowered (c_writes bytes size) = writes bytes (to_size size) ∷ []
lowered (c_reads out most) = reads out (to_size most) ∷ []
lowered (c_sets_port_name name) = []
lowered (c_sets_baud_rate r dir) = sets_baud_rate r ∷ []
lowered (c_sets_data_bits v) = sets_data_bits (to_data_bits v) ∷ []
lowered (c_sets_parity v) = sets_parity (to_parity v) ∷ []
lowered (c_sets_stop_bits v) = sets_stop_bits (to_stop_bits v) ∷ []
lowered (c_sets_flow_control v) = sets_flow_control (to_flow_control v) ∷ []
lowered (c_sets_callbacks cbs user) = []
lowered c_flushes = flushes ∷ []
lowered (c_clears dir) = clears (to_directions dir) ∷ []
lowered c_clears_error = clears_error ∷ []

abbrev pub lowered_all : List CAction → List Action
lowered_all [] = []
lowered_all (a ∷ rest) = lowered a ++ lowered_all rest

module _ {d : Device} where
  -- A handle that is not null stays so, its backend does what it is asked to do, and its port
  -- remembers the settings.
  pub c_act_lem :
      (a : CAction) (p : CPort (asio_backend d))
      → (q : CPort (asio_backend d)) × (c_act a (some p) ≡ some q)
        × (q.port.backend ≡ act_all (lowered a) p.port.backend)
        × (settings q.port ≡ configured_all (lowered a) (settings p.port))
  unfolding c_act act act_all
  c_act_lem (c_works c) p = (_, refl, refl, refl)
  c_act_lem (c_writes bytes size) p =
      unfold cps_serial_write SerialPort.write in (_, refl, refl, refl)
  c_act_lem (c_reads out most) p = unfold cps_serial_read SerialPort.read in (_, refl, refl, refl)
  c_act_lem (c_sets_port_name none) p = unfold cps_serial_set_port_name in (_, refl, refl, refl)
  c_act_lem (c_sets_port_name (some name)) p =
      unfold cps_serial_set_port_name SerialPort.set_port_name in (_, refl, refl, refl)
  c_act_lem (c_sets_baud_rate r dir) p =
      unfold cps_serial_set_baud_rate status SerialPort.set_baud_rate in (_, refl, refl, refl)
  c_act_lem (c_sets_data_bits v) p =
      unfold cps_serial_set_data_bits status SerialPort.set_data_bits in (_, refl, refl, refl)
  c_act_lem (c_sets_parity v) p =
      unfold cps_serial_set_parity status SerialPort.set_parity in (_, refl, refl, refl)
  c_act_lem (c_sets_stop_bits v) p =
      unfold cps_serial_set_stop_bits status SerialPort.set_stop_bits in (_, refl, refl, refl)
  c_act_lem (c_sets_flow_control v) p =
      unfold cps_serial_set_flow_control status SerialPort.set_flow_control in (_, refl, refl, refl)
  c_act_lem (c_sets_callbacks cbs user) p =
      unfold cps_serial_set_callbacks register SerialPort.set_callbacks in (_, refl, refl, refl)
  c_act_lem c_flushes p = unfold cps_serial_flush status SerialPort.flush in (_, refl, refl, refl)
  c_act_lem (c_clears dir) p =
      unfold cps_serial_clear status SerialPort.clear in (_, refl, refl, refl)
  c_act_lem c_clears_error p =
      unfold cps_serial_clear_error SerialPort.clear_error in (_, refl, refl, refl)
