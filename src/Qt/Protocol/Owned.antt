-- ===== src/Qt/Protocol/Owned.antt =====
-- An open port is never forgotten.
use cross_plaform_serial.Common.{
  List-cases, if-cases, inl, inr, ℕ, zero, suc, Bool, true, false, ◌||◌, List, [], ◌∷◌, ◌++◌,
  Option, none, some, ◌≡◌, refl, arith,
}
use cross_plaform_serial.Qt.Protocol.{
  Phase-cases, Protocol, Phase, idle, started, reporting, errs, opens, reports, shut, disconnects,
  connects, invoke, dispatches, Move, moves_errs, moves_opens, moves_reports, moves_dispatches,
  moves_connects, moves_disconnects, move,
}

-- Whether a success waits in the queue, or to be put there.
abbrev pub has_success : List (Option Bool) → Bool
has_success [] = false
has_success (none ∷ q) = has_success q
has_success (some r ∷ q) = r || has_success q

abbrev pub awaits : Phase → Bool
awaits idle = false
awaits started = false
awaits (reporting r) = r

-- Where the port is open, the user is told so, or will be.
abbrev pub IsOwned : Protocol → Type 0
IsOwned p = p.is_open ≡ true → (p.connected || (awaits p.phase || has_success p.queue)) ≡ true

has_success-append :
    (q : List (Option Bool)) (c : Option Bool)
    → has_success (q ++ (c ∷ [])) ≡ (has_success q || has_success (c ∷ []))
has_success-append [] c = refl
has_success-append (none ∷ q) c = has_success-append q c
has_success-append (some true ∷ q) c = refl
has_success-append (some false ∷ q) c = has_success-append q c

errs-IsOwned : (n : ℕ) (p : Protocol) → IsOwned p → IsOwned (errs n p)
unfolding errs
errs-IsOwned zero p v = v
errs-IsOwned (suc n) p v =
    errs-IsOwned n (record p { queue = p.queue ++ (none ∷ []) })
      (ground (arith, has_success-append p.queue none))

opens-IsOwned : (n : ℕ) (r : Bool) (p : Protocol) → IsOwned p → IsOwned (opens n r p)
unfolding opens
opens-IsOwned n r p v =
    ground (arith, errs-IsOwned n (record p { is_open = r; phase = reporting r }))

reports-IsOwned : (p : Protocol) → IsOwned p → IsOwned (reports p)
unfolding reports
reports-IsOwned p v = elim (Phase-cases p.phase) [
  | inl e ↦ ground arith
  | inr (inl e) ↦ ground arith
  | inr (inr (r, e)) ↦ ground (arith, has_success-append p.queue (some r))
]

shut-IsOwned : (n : ℕ) (p : Protocol) → IsOwned p → IsOwned (shut n p)
unfolding shut
shut-IsOwned n p v =
    ground (arith, errs-IsOwned n (record p { is_open = false; connected = false }))

disconnects-IsOwned :
    (n : ℕ) (r : Bool) (m : ℕ) (p : Protocol) → IsOwned p → IsOwned (disconnects n r m p)
unfolding disconnects
disconnects-IsOwned n r m p v =
    shut-IsOwned m (reports (opens n r p)) (reports-IsOwned (opens n r p) (opens-IsOwned n r p v))

-- A thread that has reported awaits nothing.
reports_ready : (p : Protocol) → awaits (reports p).phase ≡ false
unfolding reports
reports_ready p = ground arith

starts-IsOwned : (p : Protocol) → IsOwned p → IsOwned (record (reports p) { phase = started })
starts-IsOwned p v = ground (arith, reports-IsOwned p, reports_ready p)

connects-IsOwned :
    (n : ℕ) (r : Bool) (m : ℕ) (p : Protocol) → IsOwned p → IsOwned (connects n r m p)
unfolding connects
connects-IsOwned n r m p v =
    if-cases (λ q. IsOwned (record (reports (opens n r q)) { phase = started })) p.connected
      (λ _.
        let q = disconnects n r m p in
        starts-IsOwned (opens n r q) (opens-IsOwned n r q (disconnects-IsOwned n r m p v)))
      (λ _. starts-IsOwned (opens n r p) (opens-IsOwned n r p v))

invoke-IsOwned :
    (n : ℕ) (c : Option Bool) (cs : List (Option Bool)) (p : Protocol)
    → p.queue ≡ c ∷ cs
    → IsOwned p
    → IsOwned (invoke n c (record p { queue = cs }))
unfolding invoke
invoke-IsOwned n none cs p e v =
    shut-IsOwned n (reports (record p { queue = cs }))
      (reports-IsOwned (record p { queue = cs }) (ground arith))
invoke-IsOwned n (some true) cs p e v = λ o. refl
invoke-IsOwned n (some false) cs p e v = ground arith

dispatches-IsOwned : (n : ℕ) (p : Protocol) → IsOwned p → IsOwned (dispatches n p)
unfolding dispatches
dispatches-IsOwned n p v = elim (List-cases p.queue) [
  | inl e ↦ rw (e, dispatches) v
  | inr (c, cs, e) ↦ rw (e, dispatches) (invoke-IsOwned n c cs p e v)
]

pub move-IsOwned : (m : Move) (p : Protocol) → IsOwned p → IsOwned (move m p)
unfolding move
move-IsOwned (moves_errs n) p v = errs-IsOwned n p v
move-IsOwned (moves_opens n r) p v = opens-IsOwned n r p v
move-IsOwned moves_reports p v = reports-IsOwned p v
move-IsOwned (moves_dispatches n) p v = dispatches-IsOwned n p v
move-IsOwned (moves_connects n r m) p v = connects-IsOwned n r m p v
move-IsOwned (moves_disconnects n r m) p v = disconnects-IsOwned n r m p v
