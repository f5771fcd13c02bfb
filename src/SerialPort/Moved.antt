-- ===== src/SerialPort/Moved.antt =====
-- The callbacks of a port that was moved.
use cross_plaform_serial.Common.{
  ◌∙◌, ap, sym, ℕ, false, Option, none, some, ◌≡◌, ◌≢◌, refl, arith, ◌==◌, ==_iff,
}
use cross_plaform_serial.Types.{Callbacks, Notice}
use cross_plaform_serial.Backend.{SerialBackend}
use cross_plaform_serial.SerialPort.{forward}
use cross_plaform_serial.SerialPort.Objects.{
  MovedFrom, Wired, Impl, Store, move_to, move_assign, destroy, set_callbacks_at, notified, leave,
  put,
}

module _ {b : SerialBackend} where
  put_same : (a : ℕ) (o : Option (Impl b)) (h : Store b) → put a o h a ≡ o
  put_same a o h = rw ((==_iff a a).1 refl) refl

  put_other : (a x : ℕ) (o : Option (Impl b)) (h : Store b) → x ≢ a → put a o h x ≡ h x
  put_other a x o h n = let e : (x == a) ≡ false = ground arith in rw e refl

  move_to_lem :
      (m : MovedFrom) (src dst : ℕ) (h : Store b) (i : Impl b)
      → h src ≡ some i
      → move_to m src dst h ≡ put dst (some i) (put src (some (leave m i)) h)
  unfolding move_to
  move_to_lem m src dst h i e = rw (e, move_to) refl

  move_assign_lem :
      (m : MovedFrom) (src dst : ℕ) (h : Store b)
      → dst ≢ src
      → move_to m src dst h ≡ move_assign m src dst h
  unfolding move_assign
  move_assign_lem m src dst h n = let e : (src == dst) ≡ false = ground arith in rw e refl

  set_callbacks_at_lem :
      (a : ℕ) (cbs : Callbacks) (h : Store b) (i : Impl b)
      → h a ≡ some i
      → set_callbacks_at a cbs h ≡ put a (some (record i { cbs = cbs })) h
  unfolding set_callbacks_at
  set_callbacks_at_lem a cbs h i e = rw (e, set_callbacks_at) refl

  notified-some :
      (n : Notice) (w : Wired b) (h : Store b) (i : Impl b)
      → h w.owner ≡ some i
      → notified n w h ≡ some (forward i.cbs n)
  unfolding notified
  notified-some n w h i e = ap (λ o. elim o [ none ↦ none | some i ↦ some (forward i.cbs n) ]) e

  notified-none :
      (n : Notice) (w : Wired b) (h : Store b) → h w.owner ≡ none → notified n w h ≡ none
  unfolding notified
  notified-none n w h e = ap (λ o. elim o [ none ↦ none | some i ↦ some (forward i.cbs n) ]) e

  -- A port whose backend is wired to the port's own object is told through the callbacks that were
  -- set. After it is moved to another address, by construction or by assignment, its backend is
  -- there but still wired to the old object: whatever callbacks are set on the new one, a
  -- notification goes to those that the move left in the old one, and once that is destroyed, to a
  -- destroyed object.
  pub moved_callbacks :
      (m : MovedFrom) (src dst : ℕ) (h : Store b) (i : Impl b) (w : Wired b) (cbs : Callbacks)
      → (n : Notice) → h src ≡ some i
      → i.backend ≡ some w
      → w.owner ≡ src
      → dst ≢ src
      → let moved = set_callbacks_at dst cbs (move_assign m src dst h) in
        (notified n w h ≡ some (forward i.cbs n))
        × (moved dst ≡ some (record i { cbs = cbs }))
        × (move_to m src dst h ≡ move_assign m src dst h)
        × (notified n w moved ≡ some (forward (m.callbacks_left i.cbs) n))
        × (notified n w (destroy src moved) ≡ none)
  unfolding destroy leave
  moved_callbacks m src dst h i w cbs n e k o d =
      let moved : Store b = set_callbacks_at dst cbs (move_assign m src dst h) in
      let inner = put src (some (leave m i)) h in
      let both = put dst (some i) inner in
      let there : move_assign m src dst h ≡ both =
        sym (move_assign_lem m src dst h d) ∙ move_to_lem m src dst h i e in
      let last = put dst (some (record i { cbs = cbs })) both in
      let after : set_callbacks_at dst cbs (move_assign m src dst h) ≡ last =
        ap (set_callbacks_at dst cbs) there
        ∙ set_callbacks_at_lem dst cbs both i (put_same dst (some i) inner) in
      let old : last src ≡ some (leave m i) =
        put_other dst src (some (record i { cbs = cbs })) both (λ q. d (sym q))
        ∙ put_other dst src (some i) inner (λ q. d (sym q))
        ∙ put_same src (some (leave m i)) h in
      (
        notified-some n w h i (ap h o ∙ e),
        ap (λ g. g dst) after ∙ put_same dst (some (record i { cbs = cbs })) both,
        move_assign_lem m src dst h d,
        ap (notified n w) after ∙ notified-some n w last (leave m i) (ap last o ∙ old),
        notified-none n w (destroy src moved) (ap (put src none moved) o ∙ put_same src none moved),
      )
