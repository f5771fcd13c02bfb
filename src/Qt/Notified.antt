-- ===== src/Qt/Notified.antt =====
-- What a handler of the desktop backend notifies of, from a state in which no bytes wait.
use cross_plaform_serial.Asio.Run.{works}
use mathlib.Core.Path.{subst⁻¹}
use cross_plaform_serial.ReadBuffer.Fifo.{buf-push}
use cross_plaform_serial.Asio.Stream.{arriving, delivered, available}
use cross_plaform_serial.Asio.State.{is_open, set_error, notify_error, Completion, Handler, Asio}
use cross_plaform_serial.Asio.Io.{work, enqueue, read_handler, do_read, write_handler, run_handler}
use cross_plaform_serial.Asio.State.{call_if}
use cross_plaform_serial.Device.{Device}
use cross_plaform_serial.Common.{
  erase_idx, get_elem?, Option-cases, sub64, signed64, arith, ltb, ◌==◌, if◌then◌else◌, if-cases,
  ◌∙◌, inl, inr, false, true, ◌&&◌, refl, sym, ◌∙◌, not, if-cases, ◌⊎◌, ◌≢◌, ◌∷◌, true, [], length,
  ◌≡◌, Bool, Bytes,
}
use cross_plaform_serial.ReadBuffer
use cross_plaform_serial.Asio.State.{Handler, reading, posted, writing}
use cross_plaform_serial.Types.{resource_error, Notice, ready_read, bytes_written, error_notice}

length_zero : (bytes : Bytes) → (length bytes == 0) ≡ true → bytes ≡ []
length_zero [] e = refl
length_zero (x ∷ xs) e = ground arith

module _ {d : Device} where
  -- The client is told when bytes come in, and none wait.
  abbrev pub IsDrained : Asio d → Type 0
  IsDrained s = (available s ≡ []) × (s.callbacks.on_ready_read ≡ true)

  -- From a drained `s` with no notice, a handler that is given `bytes` leads to `t`.
  abbrev pub Notified : Bytes → Asio d → Type 0
  Notified bytes t =
      (t.callbacks.on_ready_read ≡ true)
      × (available t ≡ bytes)
      × ((t.notices ≡ ready_read ∷ [])
          ⊎ ((bytes ≡ [])
              × ((t.notices ≡ []) ⊎ ((n : Notice) × (t.notices ≡ n ∷ []) × (n ≢ ready_read)))))

  told :
      (b : Bool) (n : Notice) (t : Asio d)
      → t.notices ≡ []
      → n ≢ ready_read
      → available t ≡ []
      → t.callbacks.on_ready_read ≡ true
      → Notified [] (call_if b n t)
  unfolding call_if
  told true n t e ne a c = (c, a, inr (refl, inr (n, rw e refl, ne)))
  told false n t e ne a c = (c, a, inr (refl, inl e))

  do_read-Notified : (bytes : Bytes) (t : Asio d) → Notified bytes t → Notified bytes (do_read t)
  unfolding do_read enqueue
  do_read-Notified bytes t v = if-cases (Notified bytes) (t.running && is_open t) (λ _. v) (λ _. v)

  notify_error-Notified :
      (s : Asio d) → s.notices ≡ [] → IsDrained s → Notified [] (notify_error resource_error s)
  unfolding notify_error set_error
  notify_error-Notified s e (a, r) =
      told s.callbacks.on_error (error_notice resource_error) (record s { error = resource_error })
        e (λ f. cc) a r

  -- The error branch of the read handler, and its branch for bytes.
  failed-Notified :
      (s : Asio d)
      → s.notices ≡ []
      → IsDrained s
      → Notified [] (if s.running then notify_error resource_error s else s)
  unfolding notify_error set_error
  failed-Notified s e (a, r) =
      if-cases (Notified []) s.running
        (λ _.
          told s.callbacks.on_error (error_notice resource_error)
            (record s { error = resource_error }) e (λ f. cc) a r)
        (λ _. (r, a, inr (refl, inl e)))

  stored-Notified :
      (bytes : Bytes) (s : Asio d)
      → s.notices ≡ []
      → IsDrained s
      → Notified bytes (
          call_if s.callbacks.on_ready_read ready_read
            (record s { read_buffer = ReadBuffer.push bytes (length bytes) s.read_buffer }))
  unfolding call_if
  stored-Notified bytes s e (a, r) =
      let b : (ReadBuffer.push bytes (length bytes) s.read_buffer).buf ≡ bytes =
        buf-push bytes s.read_buffer ∙ rw a refl in
      rw r (refl, b, inl (rw e refl))

  chosen :
      (b : Bool) (bytes : Bytes) (t u : Asio d)
      → Notified [] t
      → Notified bytes u
      → Notified (if b then bytes else []) (if not b then t else u)
  chosen true bytes t u f g = g
  chosen false bytes t u f g = f

  read_handler-Notified :
      (c : Completion) (s : Asio d)
      → s.notices ≡ []
      → IsDrained s
      → Notified (delivered reading c) (read_handler c s)
  unfolding read_handler
  read_handler-Notified c s e (a, r) =
      chosen (c.code == 0) c.arrived _ _ (failed-Notified s e (a, r)) (
        if-cases (Notified c.arrived) (length c.arrived == 0)
          (λ z.
            do_read-Notified c.arrived s
              (r, a ∙ sym (length_zero c.arrived z), inr (length_zero c.arrived z, inl e)))
          (λ _. do_read-Notified c.arrived _ (stored-Notified c.arrived s e (a, r))))

  run_handler-Notified :
      (h : Handler) (c : Completion) (s : Asio d)
      → s.notices ≡ []
      → IsDrained s
      → Notified (delivered h c) (run_handler h c s)
  unfolding run_handler write_handler
  run_handler-Notified reading c s e v = read_handler-Notified c s e v
  run_handler-Notified (posted bytes) c s e (a, r) = (r, a, inr (refl, inl e))
  run_handler-Notified (writing bytes) c s e (a, r) =
      if-cases (Notified []) (not (c.code == 0))
        (λ _.
          if-cases (Notified []) s.closing (λ _. (r, a, inr (refl, inl e)))
            (λ _.
              notify_error-Notified
                (record s { bytes_to_write = sub64 s.bytes_to_write (length bytes) }) e (a, r)))
        (λ _.
          told (s.callbacks.on_bytes_written && ltb 0 c.written)
            (bytes_written (signed64 c.written)) _ e (λ f. cc) a r)

module _ {d : Device} where
  pub work-Notified :
      (c : Completion) (s : Asio d)
      → s.notices ≡ []
      → IsDrained s
      → Notified (arriving (works c) s) (work c s)
  unfolding work
  work-Notified c s e (a, r) = elim (Option-cases (get_elem? s.pending c.handler)) [
    | inl g ↦
        let z : arriving (works c) s ≡ [] = ground arith in
        rw (g, work) (r, a ∙ sym z, inr (z, inl e))
    | inr (h, g) ↦
        let u = run_handler h c (record s { pending = erase_idx s.pending c.handler }) in
        let z : arriving (works c) s ≡ (if s.thread then delivered h c else []) = ground arith in
        let v : work c s ≡ (if s.thread then u else s) = rw (g, work) refl in
        subst⁻¹ (λ t. Notified (arriving (works c) s) t) v
          (subst⁻¹ (λ bytes. Notified bytes (if s.thread then u else s)) z
            (Bool-if s.thread (delivered h c) u s
              (run_handler-Notified h c (record s { pending = erase_idx s.pending c.handler }) e
                (a, r))
              (r, a, inr (refl, inl e))))
  ]
    where
      Bool-if :
          (b : Bool) (bytes : Bytes) (t u : Asio d)
          → Notified bytes t
          → Notified [] u
          → Notified (if b then bytes else []) (if b then t else u)
      Bool-if true bytes t u f g = f
      Bool-if false bytes t u f g = g
