-- ===== src/PortInfo/Sorted.antt =====
-- The order of the enumerated ports.
use mathlib.Core.List.{Perm}
use mathlib.Core.List.Perm
use cross_plaform_serial.Common.{
  ap, Bytes, true, false, List, [], ◌∷◌, ◌≡◌, refl, arith, none, some, if-cases,
}
use cross_plaform_serial.PortInfo.Names.{before}
use cross_plaform_serial.PortInfo.Enumerator.{
  Files, RawPortInfo, insert, sort, collect, enumerate_ports,
}

-- No name stands before the one that precedes it.
abbrev pub IsSorted : List RawPortInfo → Type 0
IsSorted [] = Unit
IsSorted (a ∷ []) = Unit
IsSorted (a ∷ b ∷ bs) = (before b.port_name a.port_name ≡ false) × IsSorted (b ∷ bs)

before_asymm : (xs ys : Bytes) → before xs ys ≡ true → before ys xs ≡ false
unfolding before
before_asymm [] [] h = refl
before_asymm [] (y ∷ ys) h = refl
before_asymm (x ∷ xs) [] h = cc
before_asymm (x ∷ xs) (y ∷ ys) h = ground (arith, before_asymm xs ys)

insert-Perm : (a : RawPortInfo) (bs : List RawPortInfo) → Perm (insert a bs) (a ∷ bs)
unfolding insert
insert-Perm a [] = Perm.refl (a ∷ [])
insert-Perm a (b ∷ bs) =
    if-cases (λ l. Perm l (a ∷ b ∷ bs)) (before b.port_name a.port_name)
      (λ h. Perm.trans (Perm.cons b (insert-Perm a bs)) (Perm.swap a b bs))
      (λ h. Perm.refl (a ∷ b ∷ bs))

sort-Perm : (xs : List RawPortInfo) → Perm (sort xs) xs
unfolding sort
sort-Perm [] = Perm.refl []
sort-Perm (a ∷ bs) = Perm.trans (insert-Perm a (sort bs)) (Perm.cons a (sort-Perm bs))

insert_after :
    (a b : RawPortInfo) (bs : List RawPortInfo)
    → before b.port_name a.port_name ≡ true
    → IsSorted (b ∷ bs)
    → IsSorted (b ∷ insert a bs)
unfolding insert
insert_after a b [] h s = (before_asymm b.port_name a.port_name h, tt)
insert_after a b (c ∷ cs) h s =
    if-cases (λ l. IsSorted (b ∷ l)) (before c.port_name a.port_name)
      (λ k. (s.0, insert_after a c cs k s.1))
      (λ k. (before_asymm b.port_name a.port_name h, (k, s.1)))

insert-IsSorted : (a : RawPortInfo) (bs : List RawPortInfo) → IsSorted bs → IsSorted (insert a bs)
unfolding insert
insert-IsSorted a [] s = tt
insert-IsSorted a (b ∷ bs) s =
    if-cases IsSorted (before b.port_name a.port_name) (λ h. insert_after a b bs h s) (λ h. (h, s))

sort-IsSorted : (xs : List RawPortInfo) → IsSorted (sort xs)
unfolding sort
sort-IsSorted [] = tt
sort-IsSorted (a ∷ bs) = insert-IsSorted a (sort bs) (sort-IsSorted bs)

-- Where the directory can be read, the enumerated ports are those that the loop collects, each as
-- often, in the order of their names.
pub enumerate_ports-IsSorted :
    (fs : Files) (names : List Bytes)
    → fs.entries ≡ some names
    → IsSorted (enumerate_ports fs) × Perm (enumerate_ports fs) (collect fs names)
unfolding enumerate_ports
enumerate_ports-IsSorted fs names e =
    let q : enumerate_ports fs ≡ sort (collect fs names) =
      ap (λ o. elim o [ none ↦ [] | some ns ↦ sort (collect fs ns) ]) e in
    rw q (sort-IsSorted (collect fs names), sort-Perm (collect fs names))
