-- ===== src/PortInfo/Depth.antt =====
-- How far `findAttrUpwards` can climb.
use cross_plaform_serial.Common.{
  ℕ, zero, suc, Bytes, some, [], ◌∷◌, ◌≡◌, sym, ◌∙◌, arith, inl, inr, ◌<◌, ◌≤◌, ◌==◌, Option-cases,
  if◌then◌else◌,
}
use cross_plaform_serial.PortInfo.Names.{parent, slash}
use cross_plaform_serial.PortInfo.Enumerator.{Files, find_from, find_attr_upwards}
use cross_plaform_serial.PortInfo.Upwards.{
  here, list_cases, find_from-here, find_from-top, find_from-above,
}

-- How many slashes a path has.
abbrev pub depth : Bytes → ℕ
depth [] = 0
depth (c ∷ cs) = let n = depth cs in if c == slash then suc n else n

depth-parent : (dir up : Bytes) → parent dir ≡ some up → depth up < depth dir
unfolding parent
depth-parent [] up e = absurd cc
depth-parent (c ∷ cs) up e = elim (Option-cases (parent cs)) [
  | inl g ↦ ground arith
  | inr (q, g) ↦ ground (arith, depth-parent cs q g)
]

module _ (fs : Files) (attr : Bytes) where
  find_from-enough :
      (i j : ℕ) (dir out : Bytes)
      → depth dir < i
      → depth dir < j
      → find_from fs i dir attr out ≡ find_from fs j dir attr out
  find_from-enough zero j dir out h k = absurd (omega (arith, h))
  find_from-enough (suc i) zero dir out h k = absurd (omega (arith, k))
  find_from-enough (suc i) (suc j) dir out h k = elim (list_cases fs attr (here fs attr dir)) [
    | inr n ↦ find_from-here fs attr i dir out n ∙ sym (find_from-here fs attr j dir out n)
    | inl e ↦ elim (Option-cases (parent dir)) [
      | inl p ↦ find_from-top fs attr i dir out e p ∙ sym (find_from-top fs attr j dir out e p)
      | inr (up, p) ↦
          find_from-above fs attr i dir up out e p
          ∙ find_from-enough i j up _ (omega (arith, h, depth-parent dir up p))
              (omega (arith, k, depth-parent dir up p))
          ∙ sym (find_from-above fs attr j dir up out e p)
    ]
  ]

  -- In a path with fewer than ten slashes the search ends before its ten rounds are used up: with
  -- any larger number of rounds it finds the same.
  pub find_attr_upwards-enough :
      (dir : Bytes) (n : ℕ)
      → depth dir < 10
      → 10 ≤ n
      → find_from fs n dir attr [] ≡ find_attr_upwards fs dir attr
  unfolding find_attr_upwards
  find_attr_upwards-enough dir n h k =
      find_from-enough n 10 dir [] (omega (arith, h, k)) (omega (arith, h))
