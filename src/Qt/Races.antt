-- ===== src/Qt/Races.antt =====
-- Calls from QML while an open is under way.
use cross_plaform_serial.Common.{◌∙◌, ap, ℤ, Bytes, true, false, List, [], ◌∷◌, ◌≡◌, refl, arith}
use cross_plaform_serial.Qt.Link.{Link, IsLink}
use cross_plaform_serial.Qt.Gui.{
  Signal, Controller, Posted, Thread, idle, started, opened, posts, take_calls, opens, reports,
  join, shut, disconnect_port, connect_port, dispatch, invoke, emits,
}

module _ {l : Link} where
  -- A controller with this thread and queue that tells the user that the port is closed.
  abbrev pub closed : l.Port → Thread l → List (Posted l) → List Signal → Controller l
  closed p t q signals = record {
    port = p;
    connected = false;
    connected_port = [];
    thread = t;
    queue = q;
    signals = signals;
  }

  -- A connect starts its thread, and a thread that was started before has ended by then.
  connect_closed :
      (w w' : l.Schedule) (name : Bytes) (baud : ℤ) (p : l.Port) (signals : List Signal)
      → connect_port w w' name baud (closed p idle [] signals)
        ≡ closed p (started name baud) [] signals
  unfolding connect_port join opens reports
  connect_closed w w' name baud p signals = refl

  -- Joining a thread in whose open no callback comes in.
  join_started :
      (w : l.Schedule) (name : Bytes) (baud : ℤ) (p : l.Port) (q : List (Posted l))
      → (signals : List Signal) → (l.connect w name baud p).1 ≡ []
      → let (p', _, r) = l.connect w name baud p in
        join w (closed p (started name baud) q signals)
        ≡ posts (opened name r) (closed p' idle q signals)
  unfolding join opens reports take_calls
  join_started w name baud p q signals c = rw c refl

  -- A successful result, taken by the event loop.
  dispatch_opened :
      (w : l.Schedule) (name : Bytes) (r : l.Result) (p : l.Port) (q : List (Posted l))
      → (signals : List Signal) → l.is_success r ≡ true
      → let t : Controller l = dispatch w (closed p idle (opened name r ∷ q) signals) in
        (t.port ≡ p) × (t.connected ≡ true) × (t.connected_port ≡ name) × (t.queue ≡ q)
  unfolding dispatch invoke emits
  dispatch_opened w name r p q signals ok = ground arith

  connect_started :
      (w w' : l.Schedule) (name name' : Bytes) (baud baud' : ℤ) (p : l.Port)
      → (signals : List Signal) → (l.connect w name baud p).1 ≡ []
      → let (p', _, r) = l.connect w name baud p in
        connect_port w w' name' baud' (closed p (started name baud) [] signals)
        ≡ closed p' (started name' baud') (opened name r ∷ []) signals
  unfolding connect_port posts
  connect_started w w' name name' baud baud' p signals c =
      ap {A = Controller l} (λ s. record s { thread = started name' baud' })
        (join_started w name baud p [] signals c)

  -- The result of a second open, taken while the user is told that the port is connected.
  dispatch_failed :
      (w : l.Schedule) (name : Bytes) (r : l.Result) (s : Controller l)
      → s.queue ≡ opened name r ∷ []
      → l.is_success r ≡ false
      → let t : Controller l = dispatch w s in
        (t.port ≡ s.port) × (t.connected ≡ s.connected) × (t.connected_port ≡ s.connected_port)
  unfolding dispatch invoke emits
  dispatch_failed w name r s e no_success = ground arith

module _ (l : Link) where
  -- `disconnectPort` waits for an open that is under way and then looks at `connected_`, which only
  -- the queued lambda sets. Where the open succeeds and no callback comes in, a disconnect right
  -- after a connect changes nothing: the lambda then tells the user that the port is connected, and
  -- the port is as the open left it.
  pub disconnect_ignored :
      (w1 w1' w2 w2' w3 : l.Schedule) (name : Bytes) (baud : ℤ) (p : l.Port)
      → (signals : List Signal) → (l.connect w2 name baud p).1 ≡ []
      → l.is_success (l.connect w2 name baud p).2 ≡ true
      → let s : Controller l = connect_port w1 w1' name baud (closed p idle [] signals) in
        let t : Controller l = dispatch w3 (disconnect_port w2 w2' s) in
        (t.port ≡ (l.connect w2 name baud p).0) × (t.connected ≡ true) × (t.connected_port ≡ name)
  unfolding disconnect_port shut posts
  disconnect_ignored w1 w1' w2 w2' w3 name baud p signals c ok =
      let (p', _, r) = l.connect w2 name baud p in
      let e : disconnect_port w2 w2'
            (connect_port {l = l} w1 w1' name baud (closed p idle [] signals))
          ≡ closed p' idle (opened name r ∷ []) signals =
        ap (disconnect_port w2 w2') (connect_closed w1 w1' name baud p signals)
        ∙ ap (shut w2') (join_started w2 name baud p [] signals c) in
      let (a, b, d, _) = dispatch_opened w3 name r p' [] signals ok in
      (
        ap (λ (s : Controller l). (dispatch w3 s).port) e ∙ a,
        ap (λ (s : Controller l). (dispatch w3 s).connected) e ∙ b,
        ap (λ (s : Controller l). (dispatch w3 s).connected_port) e ∙ d,
      )

  -- A second connect before the result of the first is taken does not close the port, since the
  -- user is told that it is closed. Where the first open succeeds, the second fails and no callback
  -- comes in, then once both results are taken the user is told that the first port is connected,
  -- though the port is closed.
  pub connected_closed :
      (w1 w1' w2 w2' w3 w4 w5 : l.Schedule) (name1 name2 : Bytes) (baud1 baud2 : ℤ) (p : l.Port)
      → (signals : List Signal) → IsLink l
      → (l.connect w2 name1 baud1 p).1 ≡ []
      → l.is_success (l.connect w2 name1 baud1 p).2 ≡ true
      → (let p1 = (l.connect w2 name1 baud1 p).0 in (l.connect w3 name2 baud2 p1).1 ≡ [])
      → (let p1 = (l.connect w2 name1 baud1 p).0 in
          l.is_success (l.connect w3 name2 baud2 p1).2 ≡ false)
      → let s1 : Controller l = connect_port w1 w1' name1 baud1 (closed p idle [] signals) in
        let s2 : Controller l = connect_port w2 w2' name2 baud2 s1 in
        let t : Controller l = dispatch w5 (dispatch w4 (join w3 s2)) in
        (t.connected ≡ true) × (t.connected_port ≡ name1) × (l.is_open t.port ≡ false)
  unfolding posts
  connected_closed w1 w1' w2 w2' w3 w4 w5 n1 n2 b1 b2 p signals laws c1 ok c2 no_success =
      let (p1, _, r1) = l.connect w2 n1 b1 p in
      let (p2, _, r2) = l.connect w3 n2 b2 p1 in
      let s2 : Controller l =
        connect_port w2 w2' n2 b2 (connect_port {l = l} w1 w1' n1 b1 (closed p idle [] signals)) in
      let e : join w3 s2 ≡ closed p2 idle (opened n1 r1 ∷ opened n2 r2 ∷ []) signals =
        ap (λ s. join w3 (connect_port w2 w2' n2 b2 s)) (connect_closed w1 w1' n1 b1 p signals)
        ∙ ap (join w3) (connect_started w2 w2' n1 n2 b1 b2 p signals c1)
        ∙ join_started w3 n2 b2 p1 (opened n1 r1 ∷ []) signals c2 in
      let u : Controller l =
        dispatch w4 (closed p2 idle (opened n1 r1 ∷ opened n2 r2 ∷ []) signals) in
      let (a, b, d, q) = dispatch_opened w4 n1 r1 p2 (opened n2 r2 ∷ []) signals ok in
      let (a', b', d') = dispatch_failed w5 n2 r2 u q no_success in
      let f : dispatch w5 (dispatch w4 (join w3 s2)) ≡ dispatch w5 u =
        ap (λ s. dispatch w5 (dispatch w4 s)) e in
      (
        ap {A = Controller l} (λ s. s.connected) f ∙ b' ∙ b,
        ap {A = Controller l} (λ s. s.connected_port) f ∙ d' ∙ d,
        ap {A = Controller l} (λ s. l.is_open s.port) f
            ∙ ap l.is_open (a' ∙ a)
            ∙ laws.connect_outcome w3 n2 b2 p1
            ∙ no_success,
      )
