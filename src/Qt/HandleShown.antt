-- ===== src/Qt/HandleShown.antt =====
-- The bytes that `CabiController` shows, over the desktop backend.
use cross_plaform_serial.Asio.State.{Completion}
use cross_plaform_serial.CAbi.{CCall, CPort}
use cross_plaform_serial.CAbi.Enums.{of_error, CError}
use cross_plaform_serial.Device.{IsDevice, Device}
use mathlib.Core.List.{append-nil}
use mathlib.Core.Path.{subst⁻¹}
use cross_plaform_serial.Common.{
  none, some, Option, List, drop-all, take-all, signed64-pos, take, if◌then◌else◌, signed64, some,
  ℕ, ◌≢◌, ℤ, ◌∙◌, ap, pos, ap, arith, is_positive, ◌≤◌, if-cases, length, to_size, Bytes, refl, [],
  ◌∷◌, ◌++◌, ◌≡◌, true,
}
use cross_plaform_serial.Types.{Notice, Notice, ready_read, bytes_written, error_notice}
use cross_plaform_serial.SerialPort
use cross_plaform_serial.CAbi
use cross_plaform_serial.CAbi.Enums.{CError, err_none}
use cross_plaform_serial.Asio.Io
use cross_plaform_serial.Asio.Implements.{asio_backend, asio-IsBackend}
use cross_plaform_serial.Asio.Stream.{available}
use cross_plaform_serial.SerialPort.{SerialPort}
use cross_plaform_serial.Qt.Notified.{IsDrained}
use cross_plaform_serial.Qt.Gui.{Controller, run}
use cross_plaform_serial.Qt.Link.{received, Call}
use cross_plaform_serial.Qt.Heard.{heard, room, IsReader, IsShort, delivers, works_all-heard}
use cross_plaform_serial.Qt.Shown.{shown, steps, makes, steps-shown}
use cross_plaform_serial.Qt.Desktop.{works_one, works_all}
use cross_plaform_serial.Qt.Handle
use cross_plaform_serial.Qt.Handle.{handle_client, handle_link}

-- What the buffer of `handleReadyRead` shows.
heard_positive :
    (bytes : Bytes) (n : ℤ)
    → length bytes ≤ room
    → n ≡ signed64 (length bytes)
    → heard (if is_positive n then received (take (to_size n) bytes) ∷ [] else []) ≡ bytes
heard_positive [] n short e = rw e refl
heard_positive (b ∷ bs) n short e =
    let k = length (b ∷ bs) in
    let t : n ≡ pos k = e ∙ signed64-pos k (omega (arith, short)) in
    let size : to_size n ≡ k = ap to_size t ∙ omega (arith, short) in
    let all : take k (b ∷ bs) ≡ b ∷ bs = take-all k (b ∷ bs) (omega arith) in
    let some_in : is_positive n ≡ true = ap is_positive t ∙ ground arith in
    rw (some_in, size) (append-nil (take k (b ∷ bs)) ∙ all)

heard-handle_error : (e : CError) → heard (Handle.handle_error e) ≡ []
unfolding Handle.handle_error
heard-handle_error err_none = refl
heard-handle_error _ = refl

module _ {d : Device} where
  abbrev pub HandleListens : CPort (asio_backend d) → Type 0
  HandleListens p =
      (p.port.cbs.on_ready_read ≡ true) × ((fn : ℕ) × (p.captured.on_ready_read ≡ some fn))

  handle_ready_read-heard :
      IsDevice d
      → (p : CPort (asio_backend d)) → length (available p.port.backend) ≤ room
      → let (q, calls) = Handle.handle_ready_read p in
        (heard calls ≡ available p.port.backend) × (available q.port.backend ≡ [])
  unfolding Handle.handle_ready_read CAbi.cps_serial_read SerialPort.read
  handle_ready_read-heard laws p short =
      let s = p.port.backend in
      let b = asio-IsBackend laws in
      let all : take room (available s) ≡ available s = take-all room (available s) short in
      let bytes : (Io.read true room s).2 ≡ available s = b.read_taken room s ∙ all in
      (
        ap
              (λ xs. heard (
                if is_positive (Io.read true room s).1
                then received (take (to_size (Io.read true room s).1) xs) ∷ []
                else []))
              bytes
            ∙ heard_positive (available s) (Io.read true room s).1 short
                (b.read_count room s ∙ ap (λ xs. signed64 (length xs)) bytes),
        b.read_left room s ∙ drop-all room (available s) short,
      )

  handle-reads :
      IsDevice d
      → (p : CPort (asio_backend d)) → HandleListens p
      → length (available p.port.backend) ≤ room
      → let (q, calls) = (handle_client d).handle ready_read p in
        HandleListens q
        × (heard calls ≡ available p.port.backend)
        × (available q.port.backend ≡ [])
        × (q.port.backend.callbacks ≡ p.port.backend.callbacks)
  unfolding Handle.callbacks Handle.callback CAbi.invoke_all CAbi.invoke SerialPort.forward
  handle-reads laws p (l, (fn, c)) short =
      let (h, none_left) = handle_ready_read-heard laws p short in
      let e : CAbi.invoke_all p (SerialPort.forward p.port.cbs ready_read)
          ≡ CAbi.call_ready_read fn p.user_data ∷ [] =
        rw (l, c) refl in
      subst⁻¹
        (λ cs.
          let (q, calls) = Handle.callbacks cs p in
          HandleListens q
          × (heard calls ≡ available p.port.backend)
          × (available q.port.backend ≡ [])
          × (q.port.backend.callbacks ≡ p.port.backend.callbacks))
        e
        (
          unfold Handle.handle_ready_read CAbi.cps_serial_read SerialPort.read in (l, (fn, c)),
          ap heard (append-nil (Handle.handle_ready_read p).1) ∙ h,
          none_left,
          unfold Handle.handle_ready_read CAbi.cps_serial_read SerialPort.read Io.read in refl,
        )

  -- These C callbacks change nothing and hand on no bytes.
  abbrev Unheard : CPort (asio_backend d) → List CCall → Type 0
  Unheard p cs = let (q, calls) = Handle.callbacks cs p in (q ≡ p) × (heard calls ≡ [])

  option-Unheard :
      (p : CPort (asio_backend d)) (f : ℕ → CCall)
      → ((fn : ℕ) → let (q, calls) = Handle.callback (f fn) p in (q ≡ p) × (heard calls ≡ []))
      → (o : Option ℕ) → Unheard p ((elim o [ none ↦ [] | some fn ↦ f fn ∷ [] ]) ++ [])
  unfolding Handle.callbacks
  option-Unheard p f h none = (refl, refl)
  option-Unheard p f h (some fn) =
      let (same, silent) = h fn in
      (same, ap heard (append-nil (Handle.callback (f fn) p).1) ∙ silent)

  handle-ignores :
      (n : Notice) (p : CPort (asio_backend d))
      → n ≢ ready_read
      → let (q, calls) = (handle_client d).handle n p in (q ≡ p) × (heard calls ≡ [])
  unfolding Handle.callbacks Handle.callback CAbi.invoke_all CAbi.invoke SerialPort.forward
  handle-ignores ready_read p ne = absurd (ne refl)
  handle-ignores (bytes_written k) p ne =
      if-cases (λ ns. Unheard p (CAbi.invoke_all p ns)) p.port.cbs.on_bytes_written
        (λ _.
          option-Unheard p (λ fn. CAbi.call_bytes_written fn p.user_data k) (λ fn. (refl, refl))
            p.captured.on_bytes_written)
        (λ _. (refl, refl))
  handle-ignores (error_notice e) p ne =
      if-cases (λ ns. Unheard p (CAbi.invoke_all p ns)) p.port.cbs.on_error
        (λ _.
          option-Unheard p (λ fn. CAbi.call_error fn p.user_data (of_error e))
            (λ fn. (refl, heard-handle_error (of_error e))) p.captured.on_error)
        (λ _. (refl, refl))

  handle-IsReader : IsDevice d → IsReader (handle_client d) HandleListens
  handle-IsReader laws = record {
    backend_stored = λ s p. refl;
    still_listens = λ s p l. l;
    reads = handle-reads laws;
    ignores = handle-ignores;
  }

  handle_makes :
      (ws : List Completion) (p : CPort (asio_backend d))
      → makes (handle_link d) ws p ≡ works_all (handle_client d) ws p
  unfolding works_all
  handle_makes [] p = refl
  handle_makes (w ∷ ws) p =
      let (q, calls) = works_one (handle_client d) w p in
      ap (λ (r : CPort (asio_backend d) × List Call). (r.0, calls ++ r.1)) (handle_makes ws q)

  -- Where the handle of a `CabiController` tells it of bytes and none wait, any steps of the worker
  -- thread, none with more than 4096 bytes, show every byte that the device delivers in them, once
  -- and in order, and leave none waiting.
  pub handle_shown :
      IsDevice d
      → (ws : List Completion) (s : Controller (handle_link d)) → IsShort ws
      → HandleListens s.port
      → IsDrained s.port.port.backend
      → let t = run (steps ws) s in
        (shown t.signals ≡ shown s.signals ++ delivers (handle_client d) ws s.port)
        × IsDrained t.port.port.backend
  handle_shown laws ws s short l v =
      let (h, e) = steps-shown ws s in
      let m = handle_makes ws s.port in
      let (g, l', v') = works_all-heard (handle-IsReader laws) ws s.port short l v in
      (
        h
            ∙ ap (λ (r : CPort (asio_backend d) × List Call). shown s.signals ++ heard r.1) m
            ∙ ap (◌++◌ (shown s.signals)) g,
        subst⁻¹ (λ (p : CPort (asio_backend d)). IsDrained p.port.backend)
            (e ∙ ap (λ (r : CPort (asio_backend d) × List Call). r.0) m) v',
      )
