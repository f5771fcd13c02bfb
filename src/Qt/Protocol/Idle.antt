-- ===== src/Qt/Protocol/Idle.antt =====
-- Waiting for the thread of a connect.
use cross_plaform_serial.Common.{
  false, ℕ, zero, suc, Bool, [], ◌∷◌, ◌++◌, none, ◌≡◌, refl, ◌∙◌, arith, inl, inr,
}
use cross_plaform_serial.Qt.Protocol.{
  Protocol, Phase-cases, idle, reporting, errs, opens, reports, shut, disconnects,
}

errs-phase : (n : ℕ) (p : Protocol) → (errs n p).phase ≡ p.phase
unfolding errs
errs-phase zero p = refl
errs-phase (suc n) p = errs-phase n (record p { queue = p.queue ++ (none ∷ []) })

-- Where no thread runs, there is nothing to wait for.
pub opens_idle : (n : ℕ) (r : Bool) (p : Protocol) → p.phase ≡ idle → reports (opens n r p) ≡ p
unfolding opens reports
opens_idle n r p e = ground arith

-- Afterwards none runs.
pub joined_idle : (n : ℕ) (r : Bool) (p : Protocol) → (reports (opens n r p)).phase ≡ idle
unfolding opens reports
joined_idle n r p = elim (Phase-cases p.phase) [
  | inl e ↦ ground arith
  | inr (inl e) ↦ ground (arith, errs-phase n (record p { is_open = r; phase = reporting r }))
  | inr (inr (r', e)) ↦ ground arith
]

shut-phase : (n : ℕ) (p : Protocol) → (shut n p).phase ≡ p.phase
unfolding shut
shut-phase n p = ground (arith, errs-phase n (record p { is_open = false; connected = false }))

pub disconnects_idle :
    (n : ℕ) (r : Bool) (m : ℕ) (p : Protocol) → (disconnects n r m p).phase ≡ idle
unfolding disconnects
disconnects_idle n r m p = shut-phase m (reports (opens n r p)) ∙ joined_idle n r p
