-- ===== src/Qt/Protocol/Coherent.antt =====
-- What the user is told is true, where a connect is asked for only while none is under way.
use cross_plaform_serial.Common.{
  ℕ, zero, suc, Bool, true, false, List, [], ◌∷◌, ◌++◌, Option, none, some, ◌≡◌, inl, inr, refl,
  arith, List-cases, if-cases, if◌then◌else◌, ◌∙◌,
}
use cross_plaform_serial.Qt.Protocol.Idle.{opens_idle}
use cross_plaform_serial.Qt.Protocol.{
  Protocol, Phase, Phase-cases, idle, started, reporting, errs, opens, reports, shut, disconnects,
  connects, invoke, dispatches, Move, moves_errs, moves_opens, moves_reports, moves_dispatches,
  moves_connects, moves_disconnects, move,
}

-- The results that wait in the queue.
abbrev pub results : List (Option Bool) → List Bool
results [] = []
results (none ∷ q) = results q
results (some r ∷ q) = r ∷ results q

-- No open is under way and no result waits.
abbrev pub AtRest : Protocol → Type 0
AtRest p = (p.phase ≡ idle) × (results p.queue ≡ [])

-- At rest the user is told whether the port is open. While an open is under way, or its result
-- waits, the user is told that the port is closed, and the result says whether it is open.
abbrev pub Agree : Phase → List Bool → Bool → Bool → Type 0
Agree idle [] connected is_open = connected ≡ is_open
Agree idle (r ∷ []) connected is_open = (connected ≡ false) × (is_open ≡ r)
Agree idle (r ∷ r' ∷ rs) connected is_open = ⊥
Agree started [] connected is_open = (connected ≡ false) × (is_open ≡ false)
Agree started (r ∷ rs) connected is_open = ⊥
Agree (reporting r) [] connected is_open = (connected ≡ false) × (is_open ≡ r)
Agree (reporting r) (r' ∷ rs) connected is_open = ⊥

abbrev pub IsCoherent : Protocol → Type 0
IsCoherent p = Agree p.phase (results p.queue) p.connected p.is_open

-- A connect is asked for at rest.
abbrev pub IsPatient : Move → Protocol → Type 0
IsPatient (moves_errs n) p = Unit
IsPatient (moves_opens n r) p = Unit
IsPatient moves_reports p = Unit
IsPatient (moves_dispatches n) p = Unit
IsPatient (moves_connects n r m) p = AtRest p
IsPatient (moves_disconnects n r m) p = Unit

results-append_none : (q : List (Option Bool)) → results (q ++ (none ∷ [])) ≡ results q
results-append_none [] = refl
results-append_none (none ∷ q) = results-append_none q
results-append_none (some r ∷ q) = rw (results-append_none q) refl

results-append_some :
    (q : List (Option Bool)) (r : Bool) → results (q ++ (some r ∷ [])) ≡ results q ++ (r ∷ [])
results-append_some [] r = refl
results-append_some (none ∷ q) r = results-append_some q r
results-append_some (some r' ∷ q) r = rw (results-append_some q r) refl

errs-IsCoherent : (n : ℕ) (p : Protocol) → IsCoherent p → IsCoherent (errs n p)
unfolding errs
errs-IsCoherent zero p v = v
errs-IsCoherent (suc n) p v =
    errs-IsCoherent n (record p { queue = p.queue ++ (none ∷ []) })
      (rw (results-append_none p.queue) v)

open-Agree :
    (r : Bool) (rs : List Bool) (c o : Bool) → Agree started rs c o → Agree (reporting r) rs c r
open-Agree r [] c o (v, _) = (v, refl)
open-Agree r (x ∷ rs) c o v = v

report-Agree :
    (r : Bool) (rs : List Bool) (c o : Bool)
    → Agree (reporting r) rs c o
    → Agree idle (rs ++ (r ∷ [])) c o
report-Agree r [] c o v = v
report-Agree r (x ∷ rs) c o v = elim v [ ]

shut-Agree : (f : Phase) (rs : List Bool) (o : Bool) → Agree f rs true o → Agree f rs false false
shut-Agree idle [] o v = refl
shut-Agree idle (r ∷ []) o (v, _) = cc
shut-Agree idle (r ∷ x ∷ rs) o v = v
shut-Agree started [] o v = (refl, refl)
shut-Agree started (r ∷ rs) o v = v
shut-Agree (reporting r) [] o (v, _) = cc
shut-Agree (reporting r) (x ∷ rs) o v = v

-- At rest and told that the port is closed, a connect may start.
start-Agree : (o : Bool) → Agree idle [] false o → Agree started [] false o
start-Agree o v = (refl, ground arith)

invoke-Agree :
    (f : Phase) (r : Bool) (rs : List Bool) (c o : Bool)
    → Agree f (r ∷ rs) c o
    → Agree f rs (if r then true else c) o
invoke-Agree idle true [] c o (v, w) = ground arith
invoke-Agree idle false [] c o (v, w) = ground arith
invoke-Agree idle r (x ∷ rs) c o v = elim v [ ]
invoke-Agree started r rs c o v = elim v [ ]
invoke-Agree (reporting x) r rs c o v = elim v [ ]

opens-IsCoherent : (n : ℕ) (r : Bool) (p : Protocol) → IsCoherent p → IsCoherent (opens n r p)
unfolding opens
opens-IsCoherent n r p v = elim (Phase-cases p.phase) [
  | inl e ↦ rw (e, opens) v
  | inr (inl e) ↦
      rw (e, opens)
        (errs-IsCoherent n (record p { is_open = r; phase = reporting r })
          (open-Agree r (results p.queue) p.connected p.is_open (rw e at v)))
  | inr (inr (r', e)) ↦ rw (e, opens) v
]

reports-IsCoherent : (p : Protocol) → IsCoherent p → IsCoherent (reports p)
unfolding reports
reports-IsCoherent p v = elim (Phase-cases p.phase) [
  | inl e ↦ rw (e, reports) v
  | inr (inl e) ↦ rw (e, reports) v
  | inr (inr (r, e)) ↦
      rw (e, reports)
        (rw (results-append_some p.queue r)
          (report-Agree r (results p.queue) p.connected p.is_open (rw e at v)))
]

shut-IsCoherent : (n : ℕ) (p : Protocol) → IsCoherent p → IsCoherent (shut n p)
unfolding shut
shut-IsCoherent n p v =
    if-cases IsCoherent p.connected
      (λ c.
        errs-IsCoherent n (record p { is_open = false; connected = false })
          (shut-Agree p.phase (results p.queue) p.is_open (rw c at v)))
      (λ _. v)

disconnects-IsCoherent :
    (n : ℕ) (r : Bool) (m : ℕ) (p : Protocol) → IsCoherent p → IsCoherent (disconnects n r m p)
unfolding disconnects
disconnects-IsCoherent n r m p v =
    shut-IsCoherent m (reports (opens n r p))
      (reports-IsCoherent (opens n r p) (opens-IsCoherent n r p v))

errs-AtRest :
    (n : ℕ) (p : Protocol) → AtRest p → AtRest (errs n p) × ((errs n p).connected ≡ p.connected)
unfolding errs
errs-AtRest zero p a = (a, refl)
errs-AtRest (suc n) p (f, e) =
    errs-AtRest n (record p { queue = p.queue ++ (none ∷ []) }) (f, results-append_none p.queue ∙ e)

shut-AtRest : (n : ℕ) (p : Protocol) → AtRest p → AtRest (shut n p) × ((shut n p).connected ≡ false)
unfolding shut
shut-AtRest n p a =
    if-cases (λ q. AtRest q × (q.connected ≡ false)) p.connected
      (λ _. errs-AtRest n (record p { is_open = false; connected = false }) a) (λ c. (a, c))

-- A port that is closed at rest may be opened.
starts-IsCoherent :
    (n : ℕ) (r : Bool) (q : Protocol)
    → AtRest q
    → q.connected ≡ false
    → IsCoherent q
    → IsCoherent (record (reports (opens n r q)) { phase = started })
starts-IsCoherent n r q (f, e) c v =
    rw (opens_idle n r q f) (rw (e, c) (start-Agree q.is_open (rw (f, e, c) at v)))

connects-IsCoherent :
    (n : ℕ) (r : Bool) (m : ℕ) (p : Protocol)
    → AtRest p
    → IsCoherent p
    → IsCoherent (connects n r m p)
unfolding connects disconnects
connects-IsCoherent n r m p a v =
    if-cases (λ q. IsCoherent (record (reports (opens n r q)) { phase = started })) p.connected
      (λ _.
        let e = opens_idle n r p a.0 in
        let (b, c) = shut-AtRest m p a in
        rw e (starts-IsCoherent n r (shut m p) b c (shut-IsCoherent m p v)))
      (λ c. starts-IsCoherent n r p a c v)

invoke-IsCoherent :
    (n : ℕ) (c : Option Bool) (cs : List (Option Bool)) (p : Protocol)
    → p.queue ≡ c ∷ cs
    → IsCoherent p
    → IsCoherent (invoke n c (record p { queue = cs }))
unfolding invoke
invoke-IsCoherent n none cs p e v =
    shut-IsCoherent n (reports (record p { queue = cs }))
      (reports-IsCoherent (record p { queue = cs }) (rw e at v))
invoke-IsCoherent n (some true) cs p e v =
    invoke-Agree p.phase true (results cs) p.connected p.is_open (rw e at v)
invoke-IsCoherent n (some false) cs p e v =
    invoke-Agree p.phase false (results cs) p.connected p.is_open (rw e at v)

dispatches-IsCoherent : (n : ℕ) (p : Protocol) → IsCoherent p → IsCoherent (dispatches n p)
unfolding dispatches
dispatches-IsCoherent n p v = elim (List-cases p.queue) [
  | inl e ↦ rw (e, dispatches) v
  | inr (c, cs, e) ↦ rw (e, dispatches) (invoke-IsCoherent n c cs p e v)
]

pub move-IsCoherent :
    (m : Move) (p : Protocol) → IsPatient m p → IsCoherent p → IsCoherent (move m p)
unfolding move
move-IsCoherent (moves_errs n) p i v = errs-IsCoherent n p v
move-IsCoherent (moves_opens n r) p i v = opens-IsCoherent n r p v
move-IsCoherent moves_reports p i v = reports-IsCoherent p v
move-IsCoherent (moves_dispatches n) p i v = dispatches-IsCoherent n p v
move-IsCoherent (moves_connects n r m) p i v = connects-IsCoherent n r m p i v
move-IsCoherent (moves_disconnects n r m) p i v = disconnects-IsCoherent n r m p v
