-- ===== src/Qt/Told.antt =====
-- What the user of a controller is told about the port.
use mathlib.Core.Path.{subst⁻¹}
use cross_plaform_serial.Common.{false, List, [], ◌∷◌, ◌≡◌, sym}
use cross_plaform_serial.Qt.Link.{Link, IsLink}
use cross_plaform_serial.Qt.Gui
use cross_plaform_serial.Qt.Gui.{
  Controller, Event, worker_steps, thread_opens, thread_reports, loop_dispatches, calls_connect,
  calls_disconnect, calls_send, calls_clear, step, run,
}
use cross_plaform_serial.Qt.Protocol.{Protocol, Move, move, moves}
use cross_plaform_serial.Qt.Protocol.Owned.{IsOwned, move-IsOwned}
use cross_plaform_serial.Qt.Protocol.Coherent.{IsCoherent, IsPatient, move-IsCoherent}
use cross_plaform_serial.Qt.Refines.{view, abstract}
use cross_plaform_serial.Qt.Steps.{view-step, view-run, abstract_all}

module _ {l : Link} where
  -- Every call of `connectPort` is made while no open is under way and no result waits.
  abbrev pub IsPatientRun : List (Event l) → Controller l → Type 0
  IsPatientRun [] s = Unit
  IsPatientRun (e ∷ es) s = IsPatient (abstract e s) (view s) × IsPatientRun es (step e s)

closed-IsOwned : (p : Protocol) → p.is_open ≡ false → IsOwned p
closed-IsOwned p c o = cc

module _ {l : Link} (laws : IsLink l) where
  moves-IsOwned : (ms : List Move) (p : Protocol) → IsOwned p → IsOwned (moves ms p)
  unfolding moves
  moves-IsOwned [] p v = v
  moves-IsOwned (m ∷ ms) p v = moves-IsOwned ms (move m p) (move-IsOwned m p v)

  pub run-IsCoherent :
      (es : List (Event l)) (s : Controller l)
      → IsPatientRun es s
      → IsCoherent (view s)
      → IsCoherent (view (run es s))
  unfolding run
  run-IsCoherent [] s i v = v
  run-IsCoherent (e ∷ es) s (i, is) v =
      run-IsCoherent es (step e s) is
        (subst⁻¹ IsCoherent (view-step laws e s) (move-IsCoherent (abstract e s) (view s) i v))

  -- A controller whose port is closed at first never loses an open port: after any events on its
  -- four threads, if the port is open, then the user is told so, or a successful result is about
  -- to be posted or waits in the queue of the GUI thread.
  pub run-new-IsOwned :
      (p : l.Port) (es : List (Event l))
      → l.is_open p ≡ false
      → IsOwned (view (run es (Gui.new l p)))
  unfolding Gui.new
  run-new-IsOwned p es c = subst⁻¹ IsOwned (view-run laws es (Gui.new l p)) (
      moves-IsOwned (abstract_all es (Gui.new l p)) (view (Gui.new l p))
        (closed-IsOwned (view (Gui.new l p)) c))

  -- For a controller whose port is closed at first and that is only asked to connect while no open
  -- is under way and no result waits, after any events: while neither is the case, the user is told
  -- that the port is connected exactly if it is open; and while one is, the user is told that it is
  -- not, at most one result waits, and that result is whether the port is open.
  pub run-new-IsCoherent :
      (p : l.Port) (es : List (Event l))
      → l.is_open p ≡ false
      → IsPatientRun es (Gui.new l p)
      → IsCoherent (view (run es (Gui.new l p)))
  unfolding Gui.new
  run-new-IsCoherent p es c i = run-IsCoherent es (Gui.new l p) i (sym c)
