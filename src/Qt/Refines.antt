-- ===== src/Qt/Refines.antt =====
-- A controller does what its abstract view does.
use mathlib.Core.List.{map-append}
use cross_plaform_serial.Common.{
  ◌⊎◌, ℕ, suc, ℤ, Bytes, Bool, false, List, [], ◌∷◌, ◌++◌, map, Option, none, some, ◌≡◌, refl, ap,
  ◌∙◌, arith, inl, inr,
}
use cross_plaform_serial.Qt.Link.{Link, IsLink, Call, received, erred}
use cross_plaform_serial.Qt.Gui
use cross_plaform_serial.Qt.Gui.{
  Controller, Thread, Posted, Event, worker_steps, thread_opens, thread_reports, loop_dispatches,
  calls_connect, calls_disconnect, calls_send, calls_clear, opened, failed,
}
use cross_plaform_serial.Qt.Protocol
use cross_plaform_serial.Qt.Protocol.{
  Protocol, Phase, Move, moves_errs, moves_opens, moves_reports, moves_dispatches, moves_connects,
  moves_disconnects, move, errs,
}

-- How many errors were queued.
abbrev pub errors : List Call → ℕ
errors [] = 0
errors (received bytes ∷ cs) = errors cs
errors (erred message ∷ cs) = suc (errors cs)

module _ {l : Link} where
  abbrev pub item : Posted l → Option Bool
  item (opened name r) = some (l.is_success r)
  item (failed message) = none

  abbrev pub phase_of : Thread l → Phase
  phase_of Thread.idle = Phase.idle
  phase_of (Thread.started name baud) = Phase.started
  phase_of (Thread.reporting name r) = Phase.reporting (l.is_success r)

  -- The abstract view.
  abbrev pub view : Controller l → Protocol
  view s = record {
    is_open = l.is_open s.port;
    connected = s.connected;
    phase = phase_of s.thread;
    queue = map item s.queue;
  }

  -- The outcome of the open, if one is to be waited for.
  abbrev pub outcome : l.Schedule → Controller l → ℕ × Bool
  outcome w s = elim s.thread [
    | Thread.idle ↦ (0, false)
    | Thread.started name baud ↦
        let (p, calls, r) = l.connect w name baud s.port in (errors calls, l.is_success r)
    | Thread.reporting name r ↦ (0, false)
  ]

  abbrev pub close_errors : l.Schedule → Controller l → ℕ
  close_errors w s = errors (l.close w s.port).1

  -- The abstract step of an event.
  abbrev pub abstract : Event l → Controller l → Move
  abstract (worker_steps w) s = moves_errs (errors (l.work w s.port).1)
  abstract (thread_opens w) s = moves_opens (outcome w s).0 (outcome w s).1
  abstract thread_reports s = moves_reports
  abstract (loop_dispatches w) s = moves_dispatches (close_errors w s)
  abstract (calls_connect w w' name baud) s =
      moves_connects (outcome w s).0 (outcome w s).1 (close_errors w' (Gui.join w s))
  abstract (calls_disconnect w w') s =
      moves_disconnects (outcome w s).0 (outcome w s).1 (close_errors w' (Gui.join w s))
  abstract (calls_send text) s = moves_errs 0
  abstract calls_clear s = moves_reports

  Thread-cases :
      (t : Thread l)
      → (t ≡ Thread.idle)
        ⊎ (((name : Bytes) × (baud : ℤ) × (t ≡ Thread.started name baud))
            ⊎ ((name : Bytes) × (r : l.Result) × (t ≡ Thread.reporting name r)))
  Thread-cases Thread.idle = inl refl
  Thread-cases (Thread.started name baud) = inr (inl (name, baud, refl))
  Thread-cases (Thread.reporting name r) = inr (inr (name, r, refl))

  view-emits : (g : Gui.Signal) (s : Controller l) → view (Gui.emits g s) ≡ view s
  unfolding Gui.emits
  view-emits g s = refl

  view-posts :
      (c : Posted l) (s : Controller l)
      → view (Gui.posts c s) ≡ record (view s) { queue = (view s).queue ++ (item c ∷ []) }
  unfolding Gui.posts
  view-posts c s = rw (map-append item s.queue (c ∷ [])) refl

  pub view-take_calls :
      (cs : List Call) (s : Controller l) → view (Gui.take_calls cs s) ≡ errs (errors cs) (view s)
  unfolding Gui.take_calls errs
  view-take_calls [] s = refl
  view-take_calls (received bytes ∷ cs) s =
      view-take_calls cs (Gui.emits (Gui.data_received bytes) s)
      ∙ ap (errs (errors cs)) (view-emits (Gui.data_received bytes) s)
  view-take_calls (erred message ∷ cs) s =
      view-take_calls cs (Gui.posts (failed message) s)
      ∙ ap (errs (errors cs)) (view-posts (failed message) s)

  pub view-reports : (s : Controller l) → view (Gui.reports s) ≡ Protocol.reports (view s)
  unfolding Gui.reports Protocol.reports
  view-reports s = elim (Thread-cases s.thread) [
    | inl e ↦ ground arith
    | inr (inl (name, baud, e)) ↦ ground arith
    | inr (inr (name, r, e)) ↦
        ground (arith, view-posts (opened name r) (record s { thread = Thread.idle }))
  ]

  module _ (laws : IsLink l) where
    pub view-works :
        (w : l.Step) (s : Controller l)
        → view (Gui.works w s) ≡ errs (errors (l.work w s.port).1) (view s)
    unfolding Gui.works
    view-works w s =
        view-take_calls (l.work w s.port).1 (record s { port = (l.work w s.port).0 })
        ∙ rw (laws.work_open w s.port) refl

    pub view-opens :
        (w : l.Schedule) (s : Controller l)
        → view (Gui.opens w s) ≡ Protocol.opens (outcome w s).0 (outcome w s).1 (view s)
    unfolding Gui.opens Protocol.opens
    view-opens w s = elim (Thread-cases s.thread) [
      | inl e ↦ ground arith
      | inr (inl (name, baud, e)) ↦
          let (p, calls, r) = l.connect w name baud s.port in
          ground (
            arith,
            view-take_calls calls (record s { port = p; thread = Thread.reporting name r }),
            laws.connect_outcome w name baud s.port,
          )
      | inr (inr (name, r, e)) ↦ ground arith
    ]
