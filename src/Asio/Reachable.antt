-- ===== src/Asio/Reachable.antt =====
-- The invariant over opening, closing and every sequence of calls and handlers.
use cross_plaform_serial.Asio.Config.{apply_config, apply_native_timeouts}
use cross_plaform_serial.Common.{
  Bytes, true, false, List, [], ◌∷◌, ◌≡◌, refl, sym, ◌∙◌, arith, inl, inr, some, Option-cases,
  Bool-cases, ◌^◌, ◌<◌, ◌==◌, ==_iff,
}
use cross_plaform_serial.Types.{no_error, OpenMode}
use cross_plaform_serial.Device.{Device, IsDevice}
use cross_plaform_serial.Asio.State.{set_error, Asio, new, Completion, is_open}
use cross_plaform_serial.Asio.Io.{do_read}
use cross_plaform_serial.Asio.Lifecycle.{arm, close, make_port, start, try_open, open_port}
use cross_plaform_serial.Asio.Run.{Event, opens, closes, acts, step, run}
use cross_plaform_serial.Asio.Invariant.{configured-is_open, Inv, act-Inv, new-Inv}
use cross_plaform_serial.Asio.Closing.{close-Quiet, close-Shut}

module _ {d : Device} (laws : IsDevice d) where
  pub close-Inv : (last : List Completion) (s : Asio d) → Inv (close last s)
  close-Inv last s =
      let q = close-Quiet last s in
      let h = close-Shut laws last s in
      record {
        thread_open = h.port_closed ∙ sym h.joined;
        guarded = h.unguarded ∙ sym h.joined;
        running_thread = λ r. cc;
        counter = omega (arith, h.counted);
      }

  make_port-Inv : (s : Asio d) → Inv s → Inv (make_port s)
  unfolding make_port is_open
  make_port-Inv s v = elim (Option-cases s.port) [
    | inl e ↦ ground (arith, laws.make_closed)
    | inr (p, e) ↦ ground arith
  ]

  do_read-Inv : (s : Asio d) → Inv s → Inv (do_read s)
  unfolding do_read is_open
  do_read-Inv s v = ground arith

  arm-Inv : (s : Asio d) → is_open s ≡ true → s.bytes_to_write < 2 ^ 64 → Inv (arm s)
  unfolding arm is_open
  arm-Inv s o b = record {
    thread_open = o;
    guarded = refl;
    running_thread = λ _. refl;
    counter = b;
  }

  -- With the port open, what follows a successful open leaves it open with a worker thread.
  start-Inv : (s : Asio d) → is_open s ≡ true → s.bytes_to_write < 2 ^ 64 → Inv (start s)
  start-Inv s o b =
      let t = record s { error = no_error } in
      let k = configured-is_open laws t in
      let u = apply_native_timeouts (apply_config t) in
      unfold start in do_read-Inv (arm u) (arm-Inv u (k.0 ∙ unfold is_open in o) (rw k.1 b))

  try_open-Inv : (name : Bytes) (s : Asio d) → is_open s ≡ false → Inv s → Inv (try_open name s).0
  unfolding try_open is_open set_error
  try_open-Inv name s o v = elim (Option-cases s.port) [
    | inl e ↦ ground arith
    | inr (p, e) ↦
        let t = record s { port = some (d.open_port name p).1 } in
        elim (Bool-cases ((d.open_port name p).0 == 0)) [
          | inl z ↦
              rw (e, try_open)
                (rw z (start-Inv t (laws.open_success name p ((==_iff _ 0).0 z)) v.counter))
          | inr z ↦ ground (arith, laws.open_failure name p)
        ]
  ]

  pub open_port-Inv :
      (last : List Completion) (name : Bytes) (mode : OpenMode) (s : Asio d)
      → Inv s
      → Inv (open_port last name mode s).0
  unfolding open_port
  open_port-Inv last name mode s v = elim (Bool-cases (is_open (make_port s))) [
    | inl o ↦ rw o (
        try_open-Inv name _ (close-Shut laws last (make_port s)).port_closed
          (close-Inv last (make_port s)))
    | inr o ↦ rw o (try_open-Inv name _ o (make_port-Inv s v))
  ]

  step-Inv : (e : Event) (s : Asio d) → Inv s → Inv (step e s)
  unfolding step
  step-Inv (opens last name mode) s v = open_port-Inv last name mode s v
  step-Inv (closes last) s v = close-Inv last s
  step-Inv (acts a) s v = act-Inv laws a s v

  run-Inv : (es : List Event) (s : Asio d) → Inv s → Inv (run es s)
  unfolding run
  run-Inv [] s v = v
  run-Inv (e ∷ es) s v = run-Inv es (step e s) (step-Inv e s v)

  -- In every state that a new backend reaches by any sequence of opens, closes, other calls and
  -- handlers, the port is open exactly while there is a worker thread, the work guard exists as
  -- long, the read loop runs only then, and the counter is a 64-bit pattern.
  pub run-new-Inv : (es : List Event) → Inv (run es (new {d = d}))
  run-new-Inv es = run-Inv es new new-Inv
