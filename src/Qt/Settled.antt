-- ===== src/Qt/Settled.antt =====
-- A controller comes to rest.
use mathlib.Core.Path.{subst⁻¹}
use cross_plaform_serial.Common.{
  false, ℕ, List, [], ◌∷◌, ◌≡◌, refl, ap, sym, ◌∙◌, arith, length, map,
}
use cross_plaform_serial.Qt.Link.{Link, IsLink}
use cross_plaform_serial.Qt.Gui
use cross_plaform_serial.Qt.Gui.{
  Controller, Event, thread_opens, thread_reports, loop_dispatches, step, run,
}
use cross_plaform_serial.Qt.Protocol.Idle.{joined_idle}
use cross_plaform_serial.Qt.Protocol.Coherent.{AtRest, IsCoherent}
use cross_plaform_serial.Qt.Protocol.Emptied.{dispatches_all, emptied-AtRest}
use cross_plaform_serial.Qt.Protocol.{Protocol, idle}
use cross_plaform_serial.Qt.Refines.{view, item, close_errors}
use cross_plaform_serial.Qt.Steps.{view-join, view-dispatch}
use cross_plaform_serial.Qt.Told.{IsPatientRun, run-IsCoherent}

agreed : (p : Protocol) → AtRest p → IsCoherent p → p.connected ≡ p.is_open
agreed p (f, e) v = rw (f, e) at v

module _ {l : Link} where
  -- The event loop takes one lambda for each schedule.
  abbrev pub loops : List l.Schedule → Controller l → Controller l
  loops [] s = s
  loops (w ∷ ws) s = loops ws (Gui.dispatch w s)

  abbrev loop_errors : List l.Schedule → Controller l → List ℕ
  loop_errors [] s = []
  loop_errors (w ∷ ws) s = close_errors w s ∷ loop_errors ws (Gui.dispatch w s)

  length-loop_errors :
      (ws : List l.Schedule) (s : Controller l) → length (loop_errors ws s) ≡ length ws
  length-loop_errors [] s = refl
  length-loop_errors (w ∷ ws) s = omega (arith, length-loop_errors ws (Gui.dispatch w s))

  length-items : (q : List (Gui.Posted l)) → length (map item q) ≡ length q
  length-items [] = refl
  length-items (c ∷ q) = omega (arith, length-items q)

module _ {l : Link} (laws : IsLink l) where
  view-loops :
      (ws : List l.Schedule) (s : Controller l)
      → view (loops ws s) ≡ dispatches_all (loop_errors ws s) (view s)
  unfolding dispatches_all
  view-loops [] s = refl
  view-loops (w ∷ ws) s =
      view-loops ws (Gui.dispatch w s)
      ∙ ap (dispatches_all (loop_errors ws (Gui.dispatch w s))) (view-dispatch laws w s)

  loops-AtRest :
      (w : l.Schedule) (ws : List l.Schedule) (s : Controller l)
      → length ws ≡ length (Gui.join w s).queue
      → AtRest (view (loops ws (Gui.join w s)))
  loops-AtRest w ws s e =
      let t = Gui.join w s in
      let i : (view t).phase ≡ idle =
        ap (λ p. p.phase) (view-join laws w s) ∙ joined_idle _ _ (view s) in
      subst⁻¹ AtRest (view-loops ws t) (
        emptied-AtRest (loop_errors ws t) (view t)
          (omega (arith, length-loop_errors ws t, length-items t.queue, e)) i)

  join-IsCoherent :
      (w : l.Schedule) (s : Controller l) → IsCoherent (view s) → IsCoherent (view (Gui.join w s))
  join-IsCoherent w s v =
      unfold run step Gui.join in
      run-IsCoherent laws (thread_opens w ∷ thread_reports ∷ []) s (tt, (tt, tt)) v

  loops-IsCoherent :
      (ws : List l.Schedule) (s : Controller l)
      → IsCoherent (view s)
      → IsCoherent (view (loops ws s))
  loops-IsCoherent [] s v = v
  loops-IsCoherent (w ∷ ws) s v =
      loops-IsCoherent ws (Gui.dispatch w s)
        (unfold run step in run-IsCoherent laws (loop_dispatches w ∷ []) s (tt, tt) v)

  -- From any state of a new controller that is only asked to connect while no open is under way and
  -- no result waits: once the thread of the last connect has ended, and the event loop has taken as
  -- many lambdas as then wait, no open is under way, no result waits, and the user is told that the
  -- port is connected exactly if it is open.
  pub settled :
      (p : l.Port) (es : List (Event l)) (w : l.Schedule) (ws : List l.Schedule)
      → l.is_open p ≡ false
      → IsPatientRun es (Gui.new l p)
      → length ws ≡ length (Gui.join w (run es (Gui.new l p))).queue
      → let t = loops ws (Gui.join w (run es (Gui.new l p))) in
        AtRest (view t) × (t.connected ≡ l.is_open t.port)
  unfolding Gui.new
  settled p es w ws c i e =
      let s = run es (Gui.new l p) in
      let r = loops-AtRest w ws s e in
      let v = run-IsCoherent laws es (Gui.new l p) i (sym c) in
      let u = join-IsCoherent w s v in
      (r, agreed (view (loops ws (Gui.join w s))) r (loops-IsCoherent ws (Gui.join w s) u))
