-- ===== src/PortInfo/Upwards.antt =====
-- What `findAttrUpwards` finds.
use cross_plaform_serial.Common.{
  sym, ℕ, zero, suc, Bytes, Option, none, some, [], ◌∷◌, ◌++◌, ◌≡◌, ◌≢◌, ◌⊎◌, inl, inr, refl, arith,
  ◌<◌, Option-cases,
}
use cross_plaform_serial.PortInfo.Names.{parent, slash}
use cross_plaform_serial.PortInfo.Enumerator.{Files, read_sys_file, find_from, find_attr_upwards}

-- The directory so many levels up, where there is one.
abbrev pub ancestor : ℕ → Bytes → Option Bytes
ancestor zero dir = some dir
ancestor (suc k) dir = elim (parent dir) [ none ↦ none | some up ↦ ancestor k up ]

module _ (fs : Files) (attr : Bytes) where
  -- The attribute of one directory: empty for the empty path and for a missing file.
  abbrev pub here : Bytes → Bytes
  here [] = []
  here (c ∷ cs) = elim (fs.first_line ((c ∷ cs) ++ (slash ∷ attr))) [ none ↦ [] | some l ↦ l ]

  -- No directory less than `i` levels up has the attribute.
  abbrev pub IsMissing : ℕ → Bytes → Type 0
  IsMissing i dir = (j : ℕ) (up : Bytes) → j < i → ancestor j dir ≡ some up → here up ≡ []

  -- `r` is the attribute of the nearest directory that has it, or empty where none of `i` has.
  abbrev pub IsNearest : ℕ → Bytes → Bytes → Type 0
  IsNearest i dir r =
      ((k : ℕ) × (up : Bytes) × (k < i)
        × (ancestor k dir ≡ some up)
        × (here up ≡ r)
        × (r ≢ [])
        × IsMissing k dir)
      ⊎ ((r ≡ []) × IsMissing i dir)

  pub find_from-here :
      (i : ℕ) (dir out : Bytes) → here dir ≢ [] → find_from fs (suc i) dir attr out ≡ here dir
  unfolding find_from read_sys_file
  find_from-here i [] out n = absurd (n refl)
  find_from-here i (c ∷ cs) out n =
      elim (Option-cases (fs.first_line ((c ∷ cs) ++ (slash ∷ attr)))) [
        | inl g ↦ ground arith
        | inr ([], g) ↦ ground arith
        | inr (x ∷ xs, g) ↦ ground arith
      ]

  pub find_from-top :
      (i : ℕ) (dir out : Bytes)
      → here dir ≡ []
      → parent dir ≡ none
      → find_from fs (suc i) dir attr out ≡ []
  unfolding find_from read_sys_file
  find_from-top i [] out e t = refl
  find_from-top i (c ∷ cs) out e t =
      elim (Option-cases (fs.first_line ((c ∷ cs) ++ (slash ∷ attr)))) [
        | inl g ↦ ground arith
        | inr ([], g) ↦ ground arith
        | inr (x ∷ xs, g) ↦ ground arith
      ]

  pub find_from-above :
      (i : ℕ) (dir up out : Bytes)
      → here dir ≡ []
      → parent dir ≡ some up
      → find_from fs (suc i) dir attr out
        ≡ find_from fs i up attr (read_sys_file fs (dir ++ (slash ∷ attr)) out).1
  unfolding find_from read_sys_file
  find_from-above i [] up out e t = absurd (unfold parent in cc)
  find_from-above i (c ∷ cs) up out e t =
      elim (Option-cases (fs.first_line ((c ∷ cs) ++ (slash ∷ attr)))) [
        | inl g ↦ ground arith
        | inr ([], g) ↦ ground arith
        | inr (x ∷ xs, g) ↦ ground arith
      ]

  IsMissing-suc :
      (i : ℕ) (dir up : Bytes)
      → here dir ≡ []
      → parent dir ≡ some up
      → IsMissing i up
      → IsMissing (suc i) dir
  IsMissing-suc i dir up e p m zero a l h = ground arith
  IsMissing-suc i dir up e p m (suc j) a l h = m j a (omega arith) (ground arith)

  IsMissing-top : (i : ℕ) (dir : Bytes) → here dir ≡ [] → parent dir ≡ none → IsMissing i dir
  IsMissing-top i dir e p zero a l h = ground arith
  IsMissing-top i dir e p (suc j) a l h = ground arith

  pub list_cases : (xs : Bytes) → (xs ≡ []) ⊎ (xs ≢ [])
  list_cases [] = inl refl
  list_cases (x ∷ xs) = inr (λ e. cc)

  find_from-IsNearest : (i : ℕ) (dir out : Bytes) → IsNearest i dir (find_from fs i dir attr out)
  find_from-IsNearest zero dir out = inr (unfold find_from in refl, λ j up l. absurd (omega arith))
  find_from-IsNearest (suc i) dir out = elim (list_cases (here dir)) [
    | inr n ↦ inl (
      zero,
      dir,
      omega arith,
      refl,
      sym (find_from-here i dir out n),
      rw (find_from-here i dir out n) n,
      λ j up l. absurd (omega arith),
    )
    | inl e ↦ elim (Option-cases (parent dir)) [
      | inl p ↦ inr (find_from-top i dir out e p, IsMissing-top (suc i) dir e p)
      | inr (up, p) ↦
          rw (find_from-above i dir up out e p)
            (step_up i dir up _ e p (find_from-IsNearest i up _))
    ]
  ]
    where
      step_up :
          (i : ℕ) (dir up r : Bytes)
          → here dir ≡ []
          → parent dir ≡ some up
          → IsNearest i up r
          → IsNearest (suc i) dir r
      step_up i dir up r e p (inl (k, a, l, h, q, n, m)) =
          inl (suc k, a, omega arith, rw (p, ancestor) h, q, n, IsMissing-suc k dir up e p m)
      step_up i dir up r e p (inr (q, m)) = inr (q, IsMissing-suc i dir up e p m)

  -- The upward search returns the attribute of the nearest directory, among the start and its nine
  -- next ancestors, in which the file can be opened and its first line is not empty; and the empty
  -- string exactly where none of them has it.
  pub find_attr_upwards-IsNearest : (dir : Bytes) → IsNearest 10 dir (find_attr_upwards fs dir attr)
  unfolding find_attr_upwards
  find_attr_upwards-IsNearest dir = find_from-IsNearest 10 dir []
