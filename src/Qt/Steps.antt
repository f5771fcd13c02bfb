-- ===== src/Qt/Steps.antt =====
-- Every step of a controller is a step of its abstract view, and so are all its runs.
use cross_plaform_serial.Common.{
  ℕ, zero, suc, ◌++◌, none, ℤ, Bytes, Bool, false, List, [], ◌∷◌, ◌≡◌, refl, ap, sym, ◌∙◌, arith,
  inl, inr, List-cases, Bool-cases,
}
use cross_plaform_serial.Qt.Link.{Link, IsLink}
use cross_plaform_serial.Qt.Gui
use cross_plaform_serial.Qt.Gui.{
  Controller, Posted, Event, worker_steps, thread_opens, thread_reports, loop_dispatches,
  calls_connect, calls_disconnect, calls_send, calls_clear, opened, failed, step, run,
}
use cross_plaform_serial.Qt.Protocol
use cross_plaform_serial.Qt.Protocol.{Protocol, Phase, move, errs}
use cross_plaform_serial.Qt.Protocol.Idle.{opens_idle, disconnects_idle}
use cross_plaform_serial.Qt.Refines.{
  errors, view, item, outcome, close_errors, abstract, view-take_calls, view-reports, view-works,
  view-opens,
}

errs-connected :
    (n : ℕ) (c : Bool) (p : Protocol)
    → record (errs n p) { connected = c } ≡ errs n (record p { connected = c })
unfolding errs
errs-connected zero c p = refl
errs-connected (suc n) c p = errs-connected n c (record p { queue = p.queue ++ (none ∷ []) })

module _ {l : Link} where
  abbrev pub abstract_all : List (Event l) → Controller l → List Protocol.Move
  abstract_all [] s = []
  abstract_all (e ∷ es) s = abstract e s ∷ abstract_all es (step e s)

module _ {l : Link} (laws : IsLink l) where
  view-closed :
      (w : l.Schedule) (s : Controller l)
      → let (p, calls) = l.close w s.port in
        let t = Gui.take_calls calls (record s { port = p }) in
        view (record t { connected = false; connected_port = [] })
        ≡ errs (errors calls) (record (view s) { is_open = false; connected = false })
  view-closed w s =
      let (p, calls) = l.close w s.port in
      ap {A = Protocol} (λ v. record v { connected = false })
        (view-take_calls calls (record s { port = p }))
      ∙ errs-connected (errors calls) false (view (record s { port = p }))
      ∙ rw (laws.close_closed w s.port) refl

  view-shut :
      (w : l.Schedule) (s : Controller l)
      → view (Gui.shut w s) ≡ Protocol.shut (close_errors w s) (view s)
  unfolding Gui.shut Gui.emits Protocol.shut
  view-shut w s = ground (arith, view-closed w s)

  pub view-join :
      (w : l.Schedule) (s : Controller l)
      → view (Gui.join w s)
        ≡ Protocol.reports (Protocol.opens (outcome w s).0 (outcome w s).1 (view s))
  unfolding Gui.join
  view-join w s = view-reports (Gui.opens w s) ∙ ap Protocol.reports (view-opens laws w s)

  view-disconnect_port :
      (w w' : l.Schedule) (s : Controller l)
      → view (Gui.disconnect_port w w' s)
        ≡ Protocol.disconnects
            (outcome w s).0
            (outcome w s).1
            (close_errors w' (Gui.join w s))
            (view s)
  unfolding Gui.disconnect_port Protocol.disconnects
  view-disconnect_port w w' s =
      view-shut w' (Gui.join w s)
      ∙ ap (Protocol.shut (close_errors w' (Gui.join w s))) (view-join w s)

  view-send : (text : Bytes) (s : Controller l) → view (Gui.send text s).0 ≡ view s
  unfolding Gui.send
  view-send text s = ground (arith, laws.write_open text s.port)

  view-clear : (s : Controller l) → view (Gui.clear s) ≡ Protocol.reports (view s)
  unfolding Gui.clear
  view-clear s = ground (arith, laws.clear_open (Gui.reports s).port, view-reports s)

  port-reports : (s : Controller l) → (Gui.reports s).port ≡ s.port
  unfolding Gui.reports Gui.posts
  port-reports s = ground arith

  view-invoke :
      (w : l.Schedule) (c : Posted l) (s : Controller l)
      → view (Gui.invoke w c s) ≡ Protocol.invoke (close_errors w s) (item c) (view s)
  unfolding Gui.invoke Gui.emits Protocol.invoke
  view-invoke w (opened name r) s = ground arith
  view-invoke w (failed message) s =
      let t = Gui.reports (Gui.emits (Gui.error_occurred message) s) in
      view-shut w t
      ∙ ap (Protocol.shut (close_errors w t))
          (view-reports (Gui.emits (Gui.error_occurred message) s))
      ∙ ap (λ p. Protocol.shut (errors (l.close w p).1) (Protocol.reports (view s)))
          (port-reports (Gui.emits (Gui.error_occurred message) s))

  pub view-dispatch :
      (w : l.Schedule) (s : Controller l)
      → view (Gui.dispatch w s) ≡ Protocol.dispatches (close_errors w s) (view s)
  unfolding Gui.dispatch Protocol.dispatches
  view-dispatch w s = elim (List-cases s.queue) [
    | inl e ↦ rw (e, Gui.dispatch, Protocol.dispatches) refl
    | inr (c, cs, e) ↦
        rw (e, Gui.dispatch, Protocol.dispatches) (view-invoke w c (record s { queue = cs }))
  ]

  view-connect_port :
      (w w' : l.Schedule) (name : Bytes) (baud : ℤ) (s : Controller l)
      → view (Gui.connect_port w w' name baud s)
        ≡ Protocol.connects
            (outcome w s).0
            (outcome w s).1
            (close_errors w' (Gui.join w s))
            (view s)
  unfolding Gui.connect_port Protocol.connects
  view-connect_port w w' name baud s = elim (Bool-cases s.connected) [
    | inl c ↦
        let t = Gui.disconnect_port w w' s in
        let (n, r) = outcome w s in
        let m = close_errors w' (Gui.join w s) in
        let q = Protocol.disconnects n r m (view s) in
        let e : view t ≡ q = view-disconnect_port w w' s in
        let still : view (Gui.join w t) ≡ Protocol.reports (Protocol.opens n r q) =
          view-join w t
          ∙ ap (λ p. Protocol.reports (Protocol.opens (outcome w t).0 (outcome w t).1 p)) e
          ∙ opens_idle (outcome w t).0 (outcome w t).1 q (disconnects_idle n r m (view s))
          ∙ sym (opens_idle n r q (disconnects_idle n r m (view s))) in
        ground (arith, still)
    | inr c ↦ ground (arith, view-join w s)
  ]

  -- One step of the controller, whatever the event, is one step of its view.
  pub view-step : (e : Event l) (s : Controller l) → view (step e s) ≡ move (abstract e s) (view s)
  unfolding step move errs
  view-step (worker_steps w) s = view-works laws w s
  view-step (thread_opens w) s = view-opens laws w s
  view-step thread_reports s = view-reports s
  view-step (loop_dispatches w) s = view-dispatch w s
  view-step (calls_connect w w' name baud) s = view-connect_port w w' name baud s
  view-step (calls_disconnect w w') s = view-disconnect_port w w' s
  view-step (calls_send text) s = view-send text s
  view-step calls_clear s = view-clear s

  -- Whatever happens on the four threads, and whatever the port does, the abstract view of the
  -- controller follows the abstract steps of the events, one by one.
  pub view-run :
      (es : List (Event l)) (s : Controller l)
      → view (run es s) ≡ Protocol.moves (abstract_all es s) (view s)
  unfolding run Protocol.moves
  view-run [] s = refl
  view-run (e ∷ es) s =
      view-run es (step e s) ∙ ap (Protocol.moves (abstract_all es (step e s))) (view-step e s)
