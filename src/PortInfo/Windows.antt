-- ===== src/PortInfo/Windows.antt =====
-- `enumeratePorts` of src/detail/PortEnumerator.cpp on Windows. What SetupAPI answers and the
-- conversion to UTF-8 are parameters. A wide text is the list of its units before the zero.
use cross_plaform_serial.Common.{
  ℕ, Bytes, Bool, false, not, ◌&&◌, List, [], ◌∷◌, ◌++◌, Option, none, some, ◌==◌, leb, map,
  if◌then◌else◌, ◌-◌, ◌%◌, ◌^◌, take, drop, length,
}
use cross_plaform_serial.PortInfo.Hex.{skip_space, stoul16}
use cross_plaform_serial.PortInfo.Names.{starts_with}
use cross_plaform_serial.PortInfo.Enumerator.{RawPortInfo, is_empty}

-- What SetupDiGetDeviceRegistryPropertyW does to a buffer that starts with a zero: whether it
-- succeeds, and the text that is there afterwards.
abbrev pub Property : Type 0
Property = Bool × List ℕ

-- The four properties of a device that are asked for.
pub record DeviceInfo : Type 0 where
  pub friendly : Property
  pub description : Property
  pub manufacturer : Property
  pub hardware_id : Property

-- The devices of the class, if they can be listed, and WideCharToMultiByte on a text that is not
-- empty, if it succeeds.
pub record Setup : Type 0 where
  pub devices : Option (List DeviceInfo)
  pub to_utf8 : List ℕ → Option Bytes

abbrev pub is_digit : ℕ → Bool
is_digit c = leb 48 c && leb c 57

-- COM
abbrev pub com_prefix : List ℕ
com_prefix = 67 ∷ 79 ∷ 77 ∷ []

-- VID_ and PID_
abbrev pub vid_key : Bytes
vid_key = 86 ∷ 73 ∷ 68 ∷ 95 ∷ []

abbrev pub pid_key : Bytes
pid_key = 80 ∷ 73 ∷ 68 ∷ 95 ∷ []

abbrev pub starts_with_digit : List ℕ → Bool
starts_with_digit [] = false
starts_with_digit (c ∷ cs) = is_digit c

-- The inner loop.
unfoldable pub leading_digits : List ℕ → List ℕ
leading_digits [] = []
leading_digits (c ∷ cs) = let rest = leading_digits cs in if is_digit c then c ∷ rest else []

-- The token of `extractComName`, from the place that the outer loop has reached.
unfoldable pub com_token : List ℕ → List ℕ
unfolding starts_with leading_digits
com_token [] = []
com_token (c ∷ cs) =
    let rest = com_token cs in
    if starts_with com_prefix (c ∷ cs) && starts_with_digit (drop 3 (c ∷ cs))
    then com_prefix ++ leading_digits (drop 3 (c ∷ cs))
    else rest

-- `std::toupper` in the C locale.
unfoldable pub to_upper : ℕ → ℕ
to_upper c = if leb 97 c && leb c 122 then c - 32 else c

-- `find`: what follows the first place of the key.
unfoldable pub find_after : Bytes → Bytes → Option Bytes
unfolding starts_with
find_after key [] = none
find_after key (c ∷ cs) =
    let rest = find_after key cs in
    if starts_with key (c ∷ cs) then some (drop (length key) (c ∷ cs)) else rest

-- `sscanf` with "%4x": at most four characters after the white space, read as `strtoul` does.
unfoldable pub scan_hex4 : Bytes → ℕ
unfolding skip_space stoul16
scan_hex4 text = elim (stoul16 (take 4 (skip_space text))) [ none ↦ 0 | some n ↦ n ]

unfoldable pub extract_hex_id : Bytes → Bytes → ℕ
unfolding find_after scan_hex4
extract_hex_id upper key = elim (find_after key upper) [
  | none ↦ 0
  | some rest ↦ scan_hex4 rest % 2 ^ 16
]

-- The identifiers in the hardware identifier.
unfoldable pub set_ids : Bytes → RawPortInfo → RawPortInfo
unfolding extract_hex_id to_upper
set_ids text info =
    let upper = map to_upper text in
    let v = extract_hex_id upper vid_key in
    let p = extract_hex_id upper pid_key in
    record info { vendor_id = v; product_id = p; has_usb_ids = not (v == 0) && not (p == 0) }

-- The prefix of a device path, \\.\
abbrev device_path : Bytes
device_path = 92 ∷ 92 ∷ 46 ∷ 92 ∷ []

module _ (api : Setup) where
  unfoldable pub win_narrow : List ℕ → Bytes
  win_narrow [] = []
  win_narrow (c ∷ cs) = elim (api.to_utf8 (c ∷ cs)) [ none ↦ [] | some text ↦ text ]

  unfoldable pub extract_com_name : List ℕ → Bytes
  unfolding win_narrow com_token
  extract_com_name w = win_narrow (com_token w)

  -- The body of the loop.
  unfoldable pub device_info : DeviceInfo → Option RawPortInfo
  unfolding extract_com_name win_narrow set_ids
  device_info d =
      let friendly = d.friendly.1 in
      let description = d.description.1 in
      let name = extract_com_name (if is_empty friendly then description else friendly) in
      let info : RawPortInfo = record {
        port_name = name;
        description = win_narrow (if is_empty description then friendly else description);
        manufacturer = if d.manufacturer.0 then win_narrow (d.manufacturer.1) else [];
        serial_number = [];
        system_location = device_path ++ name;
        vendor_id = 0;
        product_id = 0;
        has_usb_ids = false;
      } in
      if is_empty name
      then none
      else if d.hardware_id.0
      then some (set_ids (win_narrow (d.hardware_id.1)) info)
      else some info

  unfoldable pub collect_devices : List DeviceInfo → List RawPortInfo
  unfolding device_info
  collect_devices [] = []
  collect_devices (d ∷ ds) =
      let rest = collect_devices ds in
      elim (device_info d) [ none ↦ rest | some info ↦ info ∷ rest ]

  unfoldable pub enumerate_devices : List RawPortInfo
  unfolding collect_devices
  enumerate_devices = elim api.devices [ none ↦ [] | some ds ↦ collect_devices ds ]
