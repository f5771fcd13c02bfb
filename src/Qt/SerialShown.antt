-- ===== src/Qt/SerialShown.antt =====
-- The bytes that `SerialController` shows, over the desktop backend.
use cross_plaform_serial.Asio.State.{Completion}
use cross_plaform_serial.SerialPort.Contract.{read_all_lem}
use cross_plaform_serial.Device.{IsDevice, Device}
use mathlib.Core.List.{append-nil}
use mathlib.Core.Path.{subst⁻¹}
use cross_plaform_serial.Common.{
  List, ◌≢◌, ◌∙◌, ap, ap, arith, is_positive, ◌≤◌, not, if-cases, length, to_size, Bytes, refl, [],
  ◌∷◌, ◌++◌, ◌≡◌, true,
}
use cross_plaform_serial.Types.{
  no_error, SerialError, Notice, SerialError, Notice, Callbacks, ready_read, bytes_written,
  error_notice,
}
use cross_plaform_serial.SerialPort
use cross_plaform_serial.Asio.Io
use cross_plaform_serial.Asio.Implements.{asio_backend, asio-IsBackend}
use cross_plaform_serial.Asio.Stream.{available}
use cross_plaform_serial.SerialPort.{SerialPort}
use cross_plaform_serial.Qt.Notified.{IsDrained}
use cross_plaform_serial.Qt.Gui.{Controller, run}
use cross_plaform_serial.Qt.Link.{received, Call}
use cross_plaform_serial.Qt.Heard.{heard, room, IsReader, IsShort, delivers, works_all-heard}
use cross_plaform_serial.Qt.Shown.{shown, steps, makes, steps-shown}
use cross_plaform_serial.Qt.Desktop.{works_one, works_all}
use cross_plaform_serial.Qt.Serial
use cross_plaform_serial.Qt.Serial.{serial_client, serial_link}

heard_bytes :
    (bytes : Bytes) → heard (elim bytes [ [] ↦ [] | b ∷ bs ↦ received (b ∷ bs) ∷ [] ]) ≡ bytes
heard_bytes [] = refl
heard_bytes (b ∷ bs) = append-nil (b ∷ bs)

module _ {d : Device} where
  read_all-callbacks :
      (p : SerialPort (asio_backend d))
      → ((SerialPort.read_all p).0.cbs ≡ p.cbs)
        × ((SerialPort.read_all p).0.backend.callbacks ≡ p.backend.callbacks)
  unfolding SerialPort.read_all
  read_all-callbacks p =
      let n = to_size (Io.bytes_available p.backend) in
      let r = Io.read true n p.backend in
      let e : r.0.callbacks ≡ p.backend.callbacks = unfold Io.read in refl in
      if-cases {A = SerialPort (asio_backend d) × Bytes}
        (λ t. (t.0.cbs ≡ p.cbs) × (t.0.backend.callbacks ≡ p.backend.callbacks))
        (not (is_positive (Io.bytes_available p.backend))) (λ _. (refl, refl))
        (λ _.
          if-cases {A = SerialPort (asio_backend d) × Bytes}
            (λ t. (t.0.cbs ≡ p.cbs) × (t.0.backend.callbacks ≡ p.backend.callbacks))
            (not (is_positive r.1)) (λ _. (refl, e)) (λ _. (refl, e)))

  abbrev pub SerialListens : SerialPort (asio_backend d) → Type 0
  SerialListens p = p.cbs.on_ready_read ≡ true

module _ {d : Device} (laws : IsDevice d) where
  serial-reads :
      (p : SerialPort (asio_backend d))
      → SerialListens p
      → length (available p.backend) ≤ room
      → let (q, calls) = (serial_client d).handle ready_read p in
        SerialListens q
        × (heard calls ≡ available p.backend)
        × (available q.backend ≡ [])
        × (q.backend.callbacks ≡ p.backend.callbacks)
  unfolding Serial.callbacks Serial.callback Serial.on_ready_read SerialPort.forward
  serial-reads p l short =
      let (all, none_left) = read_all_lem (asio-IsBackend laws) p (omega (arith, short)) in
      let (c, k) = read_all-callbacks p in
      let e : SerialPort.forward p.cbs ready_read ≡ ready_read ∷ [] = rw l refl in
      subst⁻¹
        (λ ns.
          let (q, calls) = Serial.callbacks ns p in
          SerialListens q
          × (heard calls ≡ available p.backend)
          × (available q.backend ≡ [])
          × (q.backend.callbacks ≡ p.backend.callbacks))
        e
        (
          ap (λ (cbs : Callbacks). cbs.on_ready_read) c ∙ l,
          ap heard (append-nil (Serial.on_ready_read p).1)
              ∙ heard_bytes (SerialPort.read_all p).1
              ∙ all,
          none_left,
          k,
        )

heard-on_cps_error : (e : SerialError) → heard (Serial.on_cps_error e) ≡ []
unfolding Serial.on_cps_error
heard-on_cps_error no_error = refl
heard-on_cps_error _ = refl

module _ {d : Device} where
  serial-ignores :
      (n : Notice) (p : SerialPort (asio_backend d))
      → n ≢ ready_read
      → let (q, calls) = (serial_client d).handle n p in (q ≡ p) × (heard calls ≡ [])
  unfolding Serial.callbacks Serial.callback SerialPort.forward
  serial-ignores ready_read p ne = absurd (ne refl)
  serial-ignores (bytes_written k) p ne =
      if-cases (λ ns. let (q, calls) = Serial.callbacks ns p in (q ≡ p) × (heard calls ≡ []))
        p.cbs.on_bytes_written (λ _. (refl, refl)) (λ _. (refl, refl))
  serial-ignores (error_notice e) p ne =
      if-cases (λ ns. let (q, calls) = Serial.callbacks ns p in (q ≡ p) × (heard calls ≡ []))
        p.cbs.on_error
        (λ _. (refl, ap heard (append-nil (Serial.on_cps_error e)) ∙ heard-on_cps_error e))
        (λ _. (refl, refl))

  serial-IsReader : IsDevice d → IsReader (serial_client d) SerialListens
  serial-IsReader laws = record {
    backend_stored = λ s p. refl;
    still_listens = λ s p l. l;
    reads = serial-reads laws;
    ignores = serial-ignores;
  }

  serial_makes :
      (ws : List Completion) (p : SerialPort (asio_backend d))
      → makes (serial_link d) ws p ≡ works_all (serial_client d) ws p
  unfolding works_all
  serial_makes [] p = refl
  serial_makes (w ∷ ws) p =
      let (q, calls) = works_one (serial_client d) w p in
      ap (λ (r : SerialPort (asio_backend d) × List Call). (r.0, calls ++ r.1)) (serial_makes ws q)

  -- Where the port of a `SerialController` tells it of bytes and none wait, any steps of the worker
  -- thread, none with more than 4096 bytes, show every byte that the device delivers in them, once
  -- and in order, and leave none waiting.
  pub serial_shown :
      IsDevice d
      → (ws : List Completion) (s : Controller (serial_link d)) → IsShort ws
      → SerialListens s.port
      → IsDrained s.port.backend
      → let t = run (steps ws) s in
        (shown t.signals ≡ shown s.signals ++ delivers (serial_client d) ws s.port)
        × IsDrained t.port.backend
  serial_shown laws ws s short l v =
      let (h, e) = steps-shown ws s in
      let m = serial_makes ws s.port in
      let (g, l', v') = works_all-heard (serial-IsReader laws) ws s.port short l v in
      (
        h
            ∙ ap (λ (r : SerialPort (asio_backend d) × List Call). shown s.signals ++ heard r.1) m
            ∙ ap (◌++◌ (shown s.signals)) g,
        subst⁻¹ (λ (p : SerialPort (asio_backend d)). IsDrained p.backend)
            (e ∙ ap (λ (r : SerialPort (asio_backend d) × List Call). r.0) m) v',
      )
