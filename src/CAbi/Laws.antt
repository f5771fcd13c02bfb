-- ===== src/CAbi/Laws.antt =====
-- What the C functions return, and when.
use cross_plaform_serial.Common.{
  ℕ, ℤ, negsuc, Bytes, true, false, none, some, List, [], ◌∷◌, ◌≡◌, ◌↔◌, ap, ◌∙◌, arith, minus_one,
  length, ◌<◌, ◌^◌, take-all, to_size,
}
use cross_plaform_serial.Types.{
  Notice, ready_read, bytes_written, error_notice, SerialError, no_error,
}
use cross_plaform_serial.Backend.{SerialBackend, IsBackend, View}
use cross_plaform_serial.SerialPort
use cross_plaform_serial.SerialPort.{SerialPort, push_config, forward}
use cross_plaform_serial.CAbi.Enums.{err_none, err_not_open, of_error, COpenMode, to_open_mode}
use cross_plaform_serial.CAbi.{
  CPort, CCallbacks, CCall, call_ready_read, call_bytes_written, call_error, cps_serial_open,
  cps_serial_is_open, cps_serial_write, cps_serial_error, cps_serial_read, cps_serial_set_callbacks,
  register, invoke_all, invoke,
}

of_error-none : (e : SerialError) → (of_error e ≡ err_none) ↔ (e ≡ no_error)
unfolding of_error
of_error-none e = ground arith

module _ {b : SerialBackend} {view : View b} (laws : IsBackend b view) where
  open view use {buffer}

  push_config-is_open : (p : SerialPort b) → b.is_open (push_config p).backend ≡ b.is_open p.backend
  unfolding push_config
  push_config-is_open p =
      laws.flow_open _ _
      ∙ laws.stop_bits_open _ _
      ∙ laws.parity_open _ _
      ∙ laws.data_bits_open _ _
      ∙ laws.baud_open _ _

  -- Over a backend that keeps the contract, `cps_serial_open` on a closed port returns CPS_ERR_NONE
  -- exactly if the port is open afterwards.
  pub cps_serial_open_iff :
      (w : b.Schedule) (p : CPort b) (mode : COpenMode)
      → b.is_open p.port.backend ≡ false
      → let (q, e) = cps_serial_open w (some p) mode in (e ≡ err_none) ↔ (cps_serial_is_open q ≡ 1)
  unfolding cps_serial_open cps_serial_is_open SerialPort.open_port SerialPort.is_open
      SerialPort.error
  cps_serial_open_iff w p mode c =
      let m = to_open_mode mode in
      let q = push_config (record p.port { mode = m }) in
      let closed = push_config-is_open (record p.port { mode = m }) ∙ c in
      let r = (b.open_port w q.port_name m q.backend).0 in
      ground
        (arith, laws.open_outcome w q.port_name m q.backend closed, of_error-none (b.last_error r))

  -- Over a backend that keeps the contract, `cps_serial_write` to a closed port returns -1, and
  -- `cps_serial_error` then is CPS_ERR_NOT_OPEN.
  cps_serial_write_closed :
      (p : CPort b) (bytes : Bytes) (size : ℤ)
      → b.is_open p.port.backend ≡ false
      → let (q, n) = cps_serial_write (some p) bytes size in
        (n ≡ minus_one) × (cps_serial_error q ≡ err_not_open)
  unfolding cps_serial_write cps_serial_error SerialPort.write SerialPort.error of_error
  cps_serial_write_closed p bytes size c =
      let h = laws.write_closed bytes (to_size size) p.port.backend c in (h.0, ap of_error h.1)

  -- A `max_size` from -2 ^ 63 to -1 is not refused: every byte that waits is copied to the caller's
  -- buffer, where fewer than 2 ^ 63 wait.
  cps_serial_read_negative :
      (p : CPort b) (k : ℕ)
      → k < 2 ^ 63
      → length (buffer p.port.backend) < 2 ^ 63
      → (cps_serial_read (some p) true (negsuc k)).2 ≡ buffer p.port.backend
  unfolding cps_serial_read SerialPort.read
  cps_serial_read_negative p k h l =
      laws.read_taken (to_size (negsuc k)) p.port.backend
      ∙ take-all _ (buffer p.port.backend) (omega arith)

-- What the C header promises of one notification, given the functions and the user data.
abbrev pub promised : CCallbacks → ℕ → Notice → List CCall
promised c user ready_read = elim c.on_ready_read [
  | none ↦ []
  | some fn ↦ call_ready_read fn user ∷ []
]
promised c user (bytes_written n) = elim c.on_bytes_written [
  | none ↦ []
  | some fn ↦ call_bytes_written fn user n ∷ []
]
promised c user (error_notice e) = elim c.on_error [
  | none ↦ []
  | some fn ↦ call_error fn user (of_error e) ∷ []
]

-- After `cps_serial_set_callbacks`, each notification of the backend calls the function registered
-- for it once, with the user data of the same call and the argument, and no other; none where the
-- pointer is null, and none at all where the structure is.
pub set_callbacks_calls :
    {b : SerialBackend} (p : CPort b) (c : CCallbacks) (user : ℕ) (n : Notice)
    → (let q = register p (some c) user in
        (cps_serial_set_callbacks (some p) (some c) user ≡ some q)
        × (invoke_all q (forward q.port.cbs n) ≡ promised c user n))
      × (let q = register p none user in
          (cps_serial_set_callbacks (some p) none user ≡ some q)
          × (invoke_all q (forward q.port.cbs n) ≡ []))
unfolding cps_serial_set_callbacks register invoke_all invoke forward SerialPort.set_callbacks
set_callbacks_calls p c user ready_read = ground arith
set_callbacks_calls p c user (bytes_written k) = ground arith
set_callbacks_calls p c user (error_notice x) = ground arith
