-- ===== src/PortInfo/HardwareId.antt =====
-- The identifiers in the hardware identifier of a Windows device.
use cross_plaform_serial.Common.{
  ℕ, Bytes, Bool, true, false, not, ◌&&◌, [], ◌∷◌, ◌++◌, ◌≡◌, refl, ◌∙◌, ap, arith, some, ◌==◌, ltb,
  if◌then◌else◌, ◌+◌, ◌/◌, ◌%◌, ◌^◌, ◌<◌, map,
}
use cross_plaform_serial.PortInfo.Enumerator.{RawPortInfo}
use cross_plaform_serial.PortInfo.Names.{starts_with}
use cross_plaform_serial.PortInfo.Hex.{hex_digit, hex_digit-plain, stoul16_four, skip_space}
use cross_plaform_serial.PortInfo.Windows.{
  vid_key, pid_key, set_ids, extract_hex_id, scan_hex4, find_after, to_upper,
}

-- An identifier in four digits, of either case.
abbrev pub digit_of : Bool → ℕ → ℕ
digit_of lower v = if ltb v 10 then 48 + v else if lower then 87 + v else 55 + v

abbrev pub four_digits : Bool → ℕ → Bytes
four_digits lower n =
    digit_of lower (n / 4096)
    ∷ digit_of lower (n / 256 % 16)
    ∷ digit_of lower (n / 16 % 16)
    ∷ digit_of lower (n % 16)
    ∷ []

-- USB\VID_vvvv&PID_pppp and what follows, such as a revision.
abbrev pub usb_id : Bool → ℕ → ℕ → Bytes → Bytes
usb_id lower v p rest =
    (85 ∷ 83 ∷ 66 ∷ 92 ∷ [])
    ++ vid_key
    ++ four_digits lower v
    ++ (38 ∷ [])
    ++ pid_key
    ++ four_digits lower p
    ++ rest

to_upper-digit_of : (lower : Bool) (v : ℕ) → v < 16 → to_upper (digit_of lower v) ≡ digit_of false v
unfolding to_upper
to_upper-digit_of true v h = ground arith
to_upper-digit_of false v h = ground arith

map-digits :
    (lower : Bool) (n : ℕ) (rest : Bytes)
    → n < 2 ^ 16
    → map to_upper (four_digits lower n ++ rest) ≡ four_digits false n ++ map to_upper rest
map-digits lower n rest h =
    rw
      (
        to_upper-digit_of lower (n / 4096) (omega arith),
        to_upper-digit_of lower (n / 256 % 16) (omega arith),
        to_upper-digit_of lower (n / 16 % 16) (omega arith),
        to_upper-digit_of lower (n % 16) (omega arith),
      )
      refl

hex_digit-digit_of : (v : ℕ) → v < 16 → hex_digit (digit_of false v) ≡ some v
unfolding hex_digit
hex_digit-digit_of v h = ground arith

scan_hex4-four_digits :
    (n : ℕ) (rest : Bytes) → n < 2 ^ 16 → scan_hex4 (four_digits false n ++ rest) ≡ n
unfolding scan_hex4 skip_space
scan_hex4-four_digits n rest h =
    let lead = hex_digit-digit_of (n / 4096) (omega arith) in
    let (space, _, _, _, _) = hex_digit-plain _ _ lead in
    let parsed =
      stoul16_four _ _ _ _ (n / 4096) (n / 256 % 16) (n / 16 % 16) (n % 16) lead
        (hex_digit-digit_of _ (omega arith)) (hex_digit-digit_of _ (omega arith))
        (hex_digit-digit_of _ (omega arith)) in
    rw (scan_hex4, skip_space, space, parsed) (omega arith)

vid-usb_id :
    (v p : ℕ) (rest : Bytes)
    → find_after vid_key (usb_id false v p rest)
      ≡ some (four_digits false v ++ (38 ∷ []) ++ pid_key ++ four_digits false p ++ rest)
unfolding find_after starts_with
vid-usb_id v p rest = refl

digit_of-80 : (v : ℕ) → v < 16 → (80 == digit_of false v) ≡ false
digit_of-80 v h = ground arith

pid-usb_id :
    (v p : ℕ) (rest : Bytes)
    → v < 2 ^ 16
    → find_after pid_key (usb_id false v p rest) ≡ some (four_digits false p ++ rest)
unfolding find_after starts_with
pid-usb_id v p rest h =
    rw
      (
        digit_of-80 (v / 4096) (omega arith),
        digit_of-80 (v / 256 % 16) (omega arith),
        digit_of-80 (v / 16 % 16) (omega arith),
        digit_of-80 (v % 16) (omega arith),
      )
      refl

map-usb_id :
    (lower : Bool) (v p : ℕ) (rest : Bytes)
    → v < 2 ^ 16
    → p < 2 ^ 16
    → map to_upper (usb_id lower v p rest) ≡ usb_id false v p (map to_upper rest)
unfolding to_upper
map-usb_id lower v p rest h k =
    let head = map-digits lower v (38 ∷ pid_key ++ four_digits lower p ++ rest) h in
    let tail = map-digits lower p rest k in
    ap (λ l. (85 ∷ 83 ∷ 66 ∷ 92 ∷ []) ++ vid_key ++ l)
      (head ∙ ap (λ l. four_digits false v ++ (38 ∷ []) ++ pid_key ++ l) tail)

extract_hex_id_found :
    (upper key rest : Bytes) (n : ℕ)
    → find_after key upper ≡ some rest
    → scan_hex4 rest ≡ n
    → n < 2 ^ 16
    → extract_hex_id upper key ≡ n
unfolding extract_hex_id
extract_hex_id_found upper key rest n e k h = rw (e, k, extract_hex_id) (omega arith)

-- From the hardware identifier of a USB device, whose identifiers are written in four digits of
-- either case, both identifiers are read back, whatever follows; they count as USB identifiers
-- where neither is 0.
pub set_ids-usb_id :
    (lower : Bool) (v p : ℕ) (rest : Bytes) (info : RawPortInfo)
    → v < 2 ^ 16
    → p < 2 ^ 16
    → set_ids (usb_id lower v p rest) info
      ≡ record info { vendor_id = v; product_id = p; has_usb_ids = not (v == 0) && not (p == 0) }
unfolding set_ids
set_ids-usb_id lower v p rest info h k =
    let e = map-usb_id lower v p rest h k in
    let upper = usb_id false v p (map to_upper rest) in
    let tail = (38 ∷ []) ++ pid_key ++ four_digits false p ++ map to_upper rest in
    let i : extract_hex_id (map to_upper (usb_id lower v p rest)) vid_key ≡ v =
      ap (λ u. extract_hex_id u vid_key) e
      ∙ extract_hex_id_found upper vid_key _ v (vid-usb_id v p (map to_upper rest))
          (scan_hex4-four_digits v tail h) h in
    let j : extract_hex_id (map to_upper (usb_id lower v p rest)) pid_key ≡ p =
      ap (λ u. extract_hex_id u pid_key) e
      ∙ extract_hex_id_found upper pid_key _ p (pid-usb_id v p (map to_upper rest) h)
          (scan_hex4-four_digits p (map to_upper rest) k) k in
    rw (set_ids, i, j) refl
