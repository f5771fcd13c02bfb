-- ===== src/Android/Dirs.antt =====
-- The directories that `ensureDir` makes.
use mathlib.Core.List.{append-nil, append_assoc}
use cross_plaform_serial.Common.{
  ◌+◌, ℕ, Bytes, List, [], ◌∷◌, ◌++◌, ◌≡◌, ◌≢◌, ◌⊎◌, inl, inr, refl, sym, ap, ◌∙◌, arith, length,
  length-append, ◌<◌, ◌==◌, ==_iff, if-cases,
}
use cross_plaform_serial.Android.Bridge.{dirs_from, dirs_made}

abbrev pub Among : Bytes → List Bytes → Type 0
Among d [] = ⊥
Among d (x ∷ xs) = (d ≡ x) ⊎ Among d xs

Among-append_left : (d : Bytes) (xs ys : List Bytes) → Among d xs → Among d (xs ++ ys)
Among-append_left d [] ys m = elim m [ ]
Among-append_left d (x ∷ xs) ys (inl e) = inl e
Among-append_left d (x ∷ xs) ys (inr m) = inr (Among-append_left d xs ys m)

Among-append_self : (d : Bytes) (xs : List Bytes) → Among d (xs ++ (d ∷ []))
Among-append_self d [] = inl refl
Among-append_self d (x ∷ xs) = inr (Among-append_self d xs)

Among-append : (d y : Bytes) (xs : List Bytes) → Among d (xs ++ (y ∷ [])) → Among d xs ⊎ (d ≡ y)
Among-append d y [] (inl e) = inr e
Among-append d y [] (inr m) = elim m [ ]
Among-append d y (x ∷ xs) (inl e) = inl (inl e)
Among-append d y (x ∷ xs) (inr m) = elim (Among-append d y xs m) [
  | inl k ↦ inl (inr k)
  | inr e ↦ inr e
]

-- Every path of the list is longer than the one before it, and the first is longer than `n`.
abbrev pub IsGrowing : ℕ → List Bytes → Type 0
IsGrowing n [] = Unit
IsGrowing n (x ∷ xs) = (n < length x) × IsGrowing (length x) xs

-- `d` ends before a slash of the path.
abbrev pub EndsAtSlash : Bytes → Bytes → Type 0
EndsAtSlash d path = (after : Bytes) × (path ≡ d ++ (47 ∷ after))

snoc_append : (done d : Bytes) (c : ℕ) → (done ++ (c ∷ [])) ++ d ≡ done ++ (c ∷ d)
snoc_append done d c = append_assoc done (c ∷ []) d

dirs_from-Among : (done d after : Bytes) → Among (done ++ d) (dirs_from done (d ++ (47 ∷ after)))
unfolding dirs_from
dirs_from-Among done [] after = inl (append-nil done)
dirs_from-Among done (c ∷ d) after =
    let m : Among (done ++ (c ∷ d)) (dirs_from (done ++ (c ∷ [])) (d ++ (47 ∷ after))) =
      rw (← snoc_append done d c) (dirs_from-Among (done ++ (c ∷ [])) d after) in
    if-cases (Among (done ++ (c ∷ d))) (c == 47) (λ e. inr m) (λ e. m)

dirs_from_sound :
    (done rest x : Bytes)
    → Among x (dirs_from done rest)
    → (d : Bytes) × (x ≡ done ++ d) × EndsAtSlash d rest
unfolding dirs_from
dirs_from_sound done [] x m = elim m [ ]
dirs_from_sound done (c ∷ rest) x m =
    if-cases (λ xs. Among x xs → Found) (c == 47)
      (λ e k. elim k [
        | inl q ↦ ([], q ∙ sym (append-nil done), (rest, ap (λ y. y ∷ rest) ((==_iff c 47).0 e)))
        | inr k' ↦ deeper (dirs_from_sound (done ++ (c ∷ [])) rest x k')
      ])
      (λ e k. deeper (dirs_from_sound (done ++ (c ∷ [])) rest x k)) m
  where
    Found : Type 0
    Found = (d : Bytes) × (x ≡ done ++ d) × EndsAtSlash d (c ∷ rest)

    deeper : ((d : Bytes) × (x ≡ (done ++ (c ∷ [])) ++ d) × EndsAtSlash d rest) → Found
    deeper (d, e, (after, f)) = (c ∷ d, e ∙ snoc_append done d c, (after, ap (◌∷◌ c) f))

dirs_from-IsGrowing :
    (n : ℕ) (done rest : Bytes)
    → n < length done
    → IsGrowing n (dirs_from done rest ++ ((done ++ rest) ∷ []))
unfolding dirs_from
dirs_from-IsGrowing n done [] h = (rw (append-nil done) h, tt)
dirs_from-IsGrowing n done (c ∷ rest) h =
    let l : length (done ++ (c ∷ [])) ≡ length done + 1 = length-append done (c ∷ []) in
    rw (← snoc_append done rest c) (
      if-cases (λ xs. IsGrowing n (xs ++ (((done ++ (c ∷ [])) ++ rest) ∷ []))) (c == 47)
        (λ e. (h, dirs_from-IsGrowing (length done) (done ++ (c ∷ [])) rest (omega arith)))
        (λ e. dirs_from-IsGrowing n (done ++ (c ∷ [])) rest (omega arith)))

module _ (c : ℕ) (rest : Bytes) where
  made : (d : Bytes) → d ≢ [] → EndsAtSlash d (c ∷ rest) → Among d (dirs_made (c ∷ rest))
  unfolding dirs_made
  made [] n s = absurd (n refl)
  made (x ∷ d) n (after, e) =
      let first : c ≡ x = cc in
      let others : rest ≡ d ++ (47 ∷ after) = cc in
      let m : Among (x ∷ d) (dirs_from (c ∷ []) rest) =
        rw (others, ← first) (dirs_from-Among (c ∷ []) d after) in
      Among-append_left (x ∷ d) (dirs_from (c ∷ []) rest) ((c ∷ rest) ∷ []) m

  made_only :
      (x : Bytes)
      → Among x (dirs_made (c ∷ rest))
      → (x ≡ c ∷ rest) ⊎ ((x ≢ []) × EndsAtSlash x (c ∷ rest))
  unfolding dirs_made
  made_only x m = elim (Among-append x (c ∷ rest) (dirs_from (c ∷ []) rest) m) [
    | inr e ↦ inl e
    | inl k ↦
        let (d, e, (after, f)) = dirs_from_sound (c ∷ []) rest x k in
        inr (λ q. cc, (after, ap (◌∷◌ c) f ∙ ap (λ y. y ++ (47 ∷ after)) (sym e)))
  ]

  -- For a path that is not empty, `ensureDir` makes the path itself and every non-empty path that
  -- ends before one of its slashes, and no other; and it makes shorter paths first, so that a
  -- directory is there before what lies in it.
  dirs_made_lem :
      ((d : Bytes) → d ≢ [] → EndsAtSlash d (c ∷ rest) → Among d (dirs_made (c ∷ rest)))
      × Among (c ∷ rest) (dirs_made (c ∷ rest))
      × ((x : Bytes)
          → Among x (dirs_made (c ∷ rest))
          → (x ≡ c ∷ rest) ⊎ ((x ≢ []) × EndsAtSlash x (c ∷ rest)))
      × IsGrowing 0 (dirs_made (c ∷ rest))
  unfolding dirs_made
  dirs_made_lem = (
    made,
    Among-append_self (c ∷ rest) (dirs_from (c ∷ []) rest),
    made_only,
    dirs_from-IsGrowing 0 (c ∷ []) rest (omega arith),
  )
