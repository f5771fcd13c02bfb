-- ===== src/PortInfo/Hex.antt =====
-- `hexToInt` of src/detail/PortEnumerator.cpp: `std::stoul` in base 16 on the text of a sysfs
-- file, with its exceptions. `unsigned long` has 64 bits.
use cross_plaform_serial.Common.{
  ℕ, Bytes, Bool, true, false, ◌||◌, ◌&&◌, [], ◌∷◌, Option, none, some, ◌≡◌, refl, ◌∙◌, ap, arith,
  ◌==◌, ltb, leb, if◌then◌else◌, ◌+◌, ◌-◌, ◌*◌, ◌/◌, ◌%◌, ◌^◌, ◌<◌,
}

-- `std::isspace`.
unfoldable pub is_space : ℕ → Bool
is_space c = c == 32 || (leb 9 c && leb c 13)

-- The value of a hexadecimal digit, of either case.
unfoldable pub hex_digit : ℕ → Option ℕ
hex_digit c =
    if leb 48 c && leb c 57
    then some (c - 48)
    else if leb 97 c && leb c 102
    then some (c - 87)
    else if leb 65 c && leb c 70
    then some (c - 55)
    else none

unfoldable pub skip_space : Bytes → Bytes
skip_space [] = []
skip_space (c ∷ cs) = let rest = skip_space cs in if is_space c then rest else c ∷ cs

-- The digits at the start of the text, after those that gave `n`.
unfoldable pub more_digits : ℕ → Bytes → ℕ
more_digits n [] = n
more_digits n (c ∷ cs) = elim (hex_digit c) [ none ↦ n | some v ↦ more_digits (n * 16 + v) cs ]

-- At least one digit.
unfoldable pub digits : Bytes → Option ℕ
digits [] = none
digits (c ∷ cs) = elim (hex_digit c) [ none ↦ none | some v ↦ some (more_digits v cs) ]

-- An `0x` or `0X` counts as a prefix where a digit follows it, and else as the digit 0.
unfoldable pub prefixed_digits : Bytes → Option ℕ
unfolding digits
prefixed_digits [] = none
prefixed_digits (c ∷ []) = digits (c ∷ [])
prefixed_digits (c ∷ x ∷ cs) =
    if c == 48 && (x == 120 || x == 88)
    then elim (digits cs) [ none ↦ some 0 | some n ↦ some n ]
    else digits (c ∷ x ∷ cs)

-- What is thrown for a value beyond `unsigned long`; a minus sign negates modulo 2 ^ 64.
unfoldable pub signed_digits : Bool → Bytes → Option ℕ
signed_digits negative cs = elim (prefixed_digits cs) [
  | none ↦ none
  | some n ↦ if ltb n (2 ^ 64) then some (if negative then (2 ^ 64 - n) % 2 ^ 64 else n) else none
]

unfoldable pub stoul16 : Bytes → Option ℕ
stoul16 cs = elim (skip_space cs) [
  | [] ↦ none
  | c ∷ rest ↦
      if c == 45
      then signed_digits true rest
      else if c == 43
      then signed_digits false rest
      else signed_digits false (c ∷ rest)
]

-- The `int` is kept as its 32-bit pattern. Both exceptions are caught.
unfoldable pub hex_to_int : Bytes → ℕ
hex_to_int [] = 0
hex_to_int (c ∷ cs) = elim (stoul16 (c ∷ cs)) [ none ↦ 0 | some n ↦ n % 2 ^ 32 ]

-- How the kernel prints an identifier: four digits in lower case.
abbrev pub print_digit : ℕ → ℕ
print_digit v = if ltb v 10 then 48 + v else 87 + v

abbrev pub print_id : ℕ → Bytes
print_id n =
    print_digit (n / 4096)
    ∷ print_digit (n / 256 % 16)
    ∷ print_digit (n / 16 % 16)
    ∷ print_digit (n % 16)
    ∷ []

-- A digit is no space, starts no prefix and is no sign.
pub hex_digit-plain :
    (c v : ℕ)
    → hex_digit c ≡ some v
    → (is_space c ≡ false)
      × ((c == 120) ≡ false)
      × ((c == 88) ≡ false)
      × ((c == 45) ≡ false)
      × ((c == 43) ≡ false)
unfolding hex_digit is_space
hex_digit-plain c v h = ground arith

hex_digit_bound : (c v : ℕ) → hex_digit c ≡ some v → v < 16
unfolding hex_digit
hex_digit_bound c v h = ground arith

and_false : (b : Bool) → (b && false) ≡ false
and_false true = refl
and_false false = refl

more_digits_cons :
    (n c v : ℕ) (rest : Bytes)
    → hex_digit c ≡ some v
    → more_digits n (c ∷ rest) ≡ more_digits (n * 16 + v) rest
unfolding more_digits
more_digits_cons n c v rest h = rw (h, more_digits) refl

prefixed_digits_cons :
    (a b v w : ℕ) (rest : Bytes)
    → hex_digit a ≡ some v
    → hex_digit b ≡ some w
    → prefixed_digits (a ∷ b ∷ rest) ≡ some (more_digits (v * 16 + w) rest)
unfolding prefixed_digits digits
prefixed_digits_cons a b v w rest h k =
    let (_, x, y, _, _) = hex_digit-plain b w k in
    rw (x, y, and_false (a == 48), h, digits, if◌then◌else◌)
      (ap some (more_digits_cons v b w rest k))

-- The text starts with two digits.
stoul16_cons :
    (a b v w n : ℕ) (rest : Bytes)
    → hex_digit a ≡ some v
    → hex_digit b ≡ some w
    → more_digits (v * 16 + w) rest ≡ n
    → n < 2 ^ 64
    → stoul16 (a ∷ b ∷ rest) ≡ some n
unfolding stoul16 skip_space signed_digits
stoul16_cons a b v w n rest h k e l =
    let (s, _, _, m, p) = hex_digit-plain a v h in
    rw (s, m, p, prefixed_digits_cons a b v w rest h k, e, stoul16, skip_space, signed_digits)
      (ground arith)

-- Four digits are read as the number that they write.
pub stoul16_four :
    (a b c d u v w x : ℕ)
    → hex_digit a ≡ some u
    → hex_digit b ≡ some v
    → hex_digit c ≡ some w
    → hex_digit d ≡ some x
    → stoul16 (a ∷ b ∷ c ∷ d ∷ []) ≡ some (((u * 16 + v) * 16 + w) * 16 + x)
stoul16_four a b c d u v w x h i j k =
    let hu = hex_digit_bound a u h in
    let hv = hex_digit_bound b v i in
    let hw = hex_digit_bound c w j in
    let hx = hex_digit_bound d x k in
    stoul16_cons a b u v _ _ h i
      (more_digits_cons _ c w _ j ∙ more_digits_cons _ d x [] k ∙ (unfold more_digits in refl))
      (omega (arith, hu, hv, hw, hx))

hex_digit-print_digit : (v : ℕ) → v < 16 → hex_digit (print_digit v) ≡ some v
unfolding hex_digit
hex_digit-print_digit v h = ground arith

-- Printing a 16-bit identifier in four digits and reading it back gives the identifier.
hex_to_int-print_id : (n : ℕ) → n < 2 ^ 16 → hex_to_int (print_id n) ≡ n
unfolding hex_to_int
hex_to_int-print_id n h =
    let parsed =
      stoul16_four _ _ _ _ (n / 4096) (n / 256 % 16) (n / 16 % 16) (n % 16)
        (hex_digit-print_digit _ (omega arith)) (hex_digit-print_digit _ (omega arith))
        (hex_digit-print_digit _ (omega arith)) (hex_digit-print_digit _ (omega arith)) in
    rw (parsed, hex_to_int) (omega arith)
