-- ===== src/Qt/Shown.antt =====
-- What the controllers show of the bytes that the device delivers.
use cross_plaform_serial.Qt.Heard.{heard-append, heard}
use cross_plaform_serial.Common.{refl, sym, ◌∙◌, ap, ◌≡◌, Bytes, ◌++◌, List}
use mathlib.Core.List.{append-nil, append_assoc}
use cross_plaform_serial.Common.{[], ◌∷◌, ◌++◌}
use cross_plaform_serial.Qt.Link.{Link, Call, received, erred}
use cross_plaform_serial.Qt.Gui
use cross_plaform_serial.Qt.Gui.{
  Signal, connected_changed, data_received, failed_to_open, error_occurred, Controller, Event,
  worker_steps, run, step,
}

-- The bytes of the signals `dataReceived`, in order.
abbrev pub shown : List Signal → Bytes
shown [] = []
shown (data_received bytes ∷ gs) = bytes ++ shown gs
shown (connected_changed b ∷ gs) = shown gs
shown (failed_to_open name message ∷ gs) = shown gs
shown (error_occurred message ∷ gs) = shown gs

shown-append : (gs hs : List Signal) → shown (gs ++ hs) ≡ shown gs ++ shown hs
shown-append [] hs = refl
shown-append (data_received bytes ∷ gs) hs =
    ap (◌++◌ bytes) (shown-append gs hs) ∙ sym (append_assoc bytes (shown gs) (shown hs))
shown-append (connected_changed b ∷ gs) hs = shown-append gs hs
shown-append (failed_to_open name message ∷ gs) hs = shown-append gs hs
shown-append (error_occurred message ∷ gs) hs = shown-append gs hs

module _ (l : Link) where
  -- Some steps of the worker thread, with the callbacks made in them.
  abbrev pub makes : List l.Step → l.Port → l.Port × List Call
  makes [] p = (p, [])
  makes (w ∷ ws) p = let (q, calls) = l.work w p in let (r, rest) = makes ws q in (r, calls ++ rest)

module _ {l : Link} where
  abbrev pub steps : List l.Step → List (Event l)
  steps [] = []
  steps (w ∷ ws) = worker_steps w ∷ steps ws

  take_calls-shown :
      (cs : List Call) (s : Controller l)
      → (shown (Gui.take_calls cs s).signals ≡ shown s.signals ++ heard cs)
        × ((Gui.take_calls cs s).port ≡ s.port)
  unfolding Gui.take_calls Gui.emits Gui.posts
  take_calls-shown [] s = (sym (append-nil (shown s.signals)), refl)
  take_calls-shown (received bytes ∷ cs) s =
      let (h, p) = take_calls-shown cs (Gui.emits (data_received bytes) s) in
      (
        h
            ∙ ap (λ xs. xs ++ heard cs)
                (shown-append s.signals (data_received bytes ∷ [])
                  ∙ ap (◌++◌ (shown s.signals)) (append-nil bytes))
            ∙ append_assoc (shown s.signals) bytes (heard cs),
        p,
      )
  take_calls-shown (erred message ∷ cs) s = take_calls-shown cs (Gui.posts (Gui.failed message) s)

  pub steps-shown :
      (ws : List l.Step) (s : Controller l)
      → (shown (run (steps ws) s).signals ≡ shown s.signals ++ heard (makes l ws s.port).1)
        × ((run (steps ws) s).port ≡ (makes l ws s.port).0)
  unfolding run step Gui.works
  steps-shown [] s = (sym (append-nil (shown s.signals)), refl)
  steps-shown (w ∷ ws) s =
      let (p, calls) = l.work w s.port in
      let t = Gui.take_calls calls (record s { port = p }) in
      let (h, e) = take_calls-shown calls (record s { port = p }) in
      let (h2, e2) = steps-shown ws t in
      (
        h2
            ∙ ap (λ q. shown t.signals ++ heard (makes l ws q).1) e
            ∙ ap (λ xs. xs ++ heard (makes l ws p).1) h
            ∙ append_assoc (shown s.signals) (heard calls) (heard (makes l ws p).1)
            ∙ ap (◌++◌ (shown s.signals)) (sym (heard-append calls (makes l ws p).1)),
        e2 ∙ ap (λ q. (makes l ws q).0) e,
      )
