-- ===== src/Qt/Protocol.antt =====
-- An abstract view of a controller: whether the port is open, whether the user is told that it is
-- connected, how far an open has come, and which results wait in the queue of the GUI thread.
use cross_plaform_serial.Common.{
  ℕ, zero, suc, Bool, true, false, List, [], ◌∷◌, ◌++◌, Option, none, some, if◌then◌else◌, ◌≡◌, ◌⊎◌,
  inl, inr, refl,
}
pub mod Idle
pub mod Coherent
pub mod Owned
pub mod Emptied

pub data Phase : Type 0 where
  idle started : Phase
  reporting : Bool → Phase

-- A queued result says whether the open succeeded; a queued error is `none`.
pub record Protocol : Type 0 where
  pub is_open : Bool
  pub connected : Bool
  pub phase : Phase
  pub queue : List (Option Bool)

-- Errors that the worker thread queues.
unfoldable pub errs : ℕ → Protocol → Protocol
errs zero p = p
errs (suc n) p = errs n (record p { queue = p.queue ++ (none ∷ []) })

-- An open that ends as told, with so many errors before that.
unfoldable pub opens : ℕ → Bool → Protocol → Protocol
unfolding errs
opens n r p = elim p.phase [
  | idle ↦ p
  | started ↦ errs n (record p { is_open = r; phase = reporting r })
  | reporting r' ↦ p
]

unfoldable pub reports : Protocol → Protocol
reports p = elim p.phase [
  | idle ↦ p
  | started ↦ p
  | reporting r ↦ record p { phase = idle; queue = p.queue ++ (some r ∷ []) }
]

unfoldable pub shut : ℕ → Protocol → Protocol
unfolding errs
shut n p = if p.connected then errs n (record p { is_open = false; connected = false }) else p

unfoldable pub disconnects : ℕ → Bool → ℕ → Protocol → Protocol
unfolding opens reports shut
disconnects n r m p = shut m (reports (opens n r p))

unfoldable pub connects : ℕ → Bool → ℕ → Protocol → Protocol
unfolding disconnects opens reports
connects n r m p =
    let q = if p.connected then disconnects n r m p else p in
    record (reports (opens n r q)) { phase = started }

unfoldable pub invoke : ℕ → Option Bool → Protocol → Protocol
unfolding shut reports
invoke n none p = shut n (reports p)
invoke n (some r) p = if r then record p { connected = true } else p

unfoldable pub dispatches : ℕ → Protocol → Protocol
unfolding invoke
dispatches n p = elim p.queue [ [] ↦ p | c ∷ cs ↦ invoke n c (record p { queue = cs }) ]

-- A step, with what is not determined by the view: the outcome of an open that is waited for, and
-- how many errors are queued while the step waits for the worker thread.
pub data Move : Type 0 where
  moves_errs : ℕ → Move
  moves_opens : ℕ → Bool → Move
  moves_reports : Move
  moves_dispatches : ℕ → Move
  moves_connects : ℕ → Bool → ℕ → Move
  moves_disconnects : ℕ → Bool → ℕ → Move

unfoldable pub move : Move → Protocol → Protocol
move (moves_errs n) p = errs n p
move (moves_opens n r) p = opens n r p
move moves_reports p = reports p
move (moves_dispatches n) p = dispatches n p
move (moves_connects n r m) p = connects n r m p
move (moves_disconnects n r m) p = disconnects n r m p

unfoldable pub moves : List Move → Protocol → Protocol
moves [] p = p
moves (m ∷ ms) p = moves ms (move m p)

pub Phase-cases : (f : Phase) → (f ≡ idle) ⊎ ((f ≡ started) ⊎ ((r : Bool) × (f ≡ reporting r)))
Phase-cases idle = inl refl
Phase-cases started = inr (inl refl)
Phase-cases (reporting r) = inr (inr (r, refl))
