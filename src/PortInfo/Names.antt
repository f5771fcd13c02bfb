-- ===== src/PortInfo/Names.antt =====
-- `looksSerial` and the paths of src/detail/PortEnumerator.cpp.
use cross_plaform_serial.Common.{
  ℕ, Bytes, Bool, true, false, ◌&&◌, ◌||◌, List, [], ◌∷◌, Option, none, some, ◌==◌, if◌then◌else◌,
  ltb,
}

-- `name.compare(0, strlen(p), p) == 0`.
unfoldable pub starts_with : Bytes → Bytes → Bool
starts_with [] name = true
starts_with (c ∷ p) [] = false
starts_with (c ∷ p) (x ∷ name) = let rest = starts_with p name in c == x && rest

-- "tty" before the rest of a name.
abbrev tty : Bytes → Bytes
tty rest = 116 ∷ 116 ∷ 121 ∷ rest

-- USB, ACM, S, AMA, XRUSB, MAX, HS, MSL, O, AT after "tty", then rfcomm, then GS, MI, SPI.
abbrev pub prefixes : List Bytes
prefixes =
    tty (85 ∷ 83 ∷ 66 ∷ [])
    ∷ tty (65 ∷ 67 ∷ 77 ∷ [])
    ∷ tty (83 ∷ [])
    ∷ tty (65 ∷ 77 ∷ 65 ∷ [])
    ∷ tty (88 ∷ 82 ∷ 85 ∷ 83 ∷ 66 ∷ [])
    ∷ tty (77 ∷ 65 ∷ 88 ∷ [])
    ∷ tty (72 ∷ 83 ∷ [])
    ∷ tty (77 ∷ 83 ∷ 76 ∷ [])
    ∷ tty (79 ∷ [])
    ∷ tty (65 ∷ 84 ∷ [])
    ∷ (114 ∷ 102 ∷ 99 ∷ 111 ∷ 109 ∷ 109 ∷ [])
    ∷ tty (71 ∷ 83 ∷ [])
    ∷ tty (77 ∷ 73 ∷ [])
    ∷ tty (83 ∷ 80 ∷ 73 ∷ [])
    ∷ []

unfoldable pub starts_with_any : List Bytes → Bytes → Bool
starts_with_any [] name = false
starts_with_any (p ∷ ps) name = let rest = starts_with_any ps name in starts_with p name || rest

unfoldable pub looks_serial : Bytes → Bool
looks_serial name = starts_with_any prefixes name

abbrev pub slash : ℕ
slash = 47

-- `find_last_of('/')` and `resize`: what stands before the last slash, if there is one.
unfoldable pub parent : Bytes → Option Bytes
parent [] = none
parent (c ∷ cs) = elim (parent cs) [
  | some up ↦ some (c ∷ up)
  | none ↦ if c == slash then some [] else none
]

-- `operator<` of `std::string`.
unfoldable pub before : Bytes → Bytes → Bool
before [] [] = false
before [] (y ∷ ys) = true
before (x ∷ xs) [] = false
before (x ∷ xs) (y ∷ ys) = let rest = before xs ys in if ltb x y then true else x == y && rest
