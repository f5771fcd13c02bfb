-- ===== src/PortInfo/Enumerator.antt =====
-- `enumeratePorts` of src/detail/PortEnumerator.cpp on Linux. The file system is a parameter.
use cross_plaform_serial.Common.{
  zero, suc, ℕ, Bytes, Bool, true, false, not, ◌&&◌, List, [], ◌∷◌, ◌++◌, Option, none, some, ◌==◌,
  if◌then◌else◌, ◌%◌, ◌^◌,
}
use cross_plaform_serial.PortInfo.Hex.{hex_to_int}
use cross_plaform_serial.PortInfo.Names.{looks_serial, parent, slash, before}

-- What is called of the system: the entries of /sys/class/tty, if the directory can be opened;
-- the first line of a file, if it can be opened; and `realpath`.
pub record Files : Type 0 where
  pub entries : Option (List Bytes)
  pub first_line : Bytes → Option Bytes
  pub realpath : Bytes → Option Bytes

-- `RawPortInfo`
pub record RawPortInfo : Type 0 where
  pub port_name : Bytes
  pub description : Bytes
  pub manufacturer : Bytes
  pub serial_number : Bytes
  pub system_location : Bytes
  pub vendor_id : ℕ
  pub product_id : ℕ
  pub has_usb_ids : Bool

abbrev pub is_empty : Bytes → Bool
is_empty [] = true
is_empty (c ∷ cs) = false

-- /sys/class/tty/, /device, /dev/ and the names of the six attributes.
abbrev class_tty : Bytes
class_tty = 47 ∷ 115 ∷ 121 ∷ 115 ∷ 47 ∷ 99 ∷ 108 ∷ 97 ∷ 115 ∷ 115 ∷ 47 ∷ 116 ∷ 116 ∷ 121 ∷ 47 ∷ []

abbrev device : Bytes
device = 47 ∷ 100 ∷ 101 ∷ 118 ∷ 105 ∷ 99 ∷ 101 ∷ []

abbrev dev : Bytes
dev = 47 ∷ 100 ∷ 101 ∷ 118 ∷ 47 ∷ []

abbrev pub id_vendor : Bytes
id_vendor = 105 ∷ 100 ∷ 86 ∷ 101 ∷ 110 ∷ 100 ∷ 111 ∷ 114 ∷ []

abbrev pub id_product : Bytes
id_product = 105 ∷ 100 ∷ 80 ∷ 114 ∷ 111 ∷ 100 ∷ 117 ∷ 99 ∷ 116 ∷ []

abbrev manufacturer : Bytes
manufacturer = 109 ∷ 97 ∷ 110 ∷ 117 ∷ 102 ∷ 97 ∷ 99 ∷ 116 ∷ 117 ∷ 114 ∷ 101 ∷ 114 ∷ []

abbrev product : Bytes
product = 112 ∷ 114 ∷ 111 ∷ 100 ∷ 117 ∷ 99 ∷ 116 ∷ []

abbrev serial : Bytes
serial = 115 ∷ 101 ∷ 114 ∷ 105 ∷ 97 ∷ 108 ∷ []

abbrev interface : Bytes
interface = 105 ∷ 110 ∷ 116 ∷ 101 ∷ 114 ∷ 102 ∷ 97 ∷ 99 ∷ 101 ∷ []

module _ (fs : Files) where
  -- `out` is the string that the caller passes in: it is kept if the file cannot be opened.
  unfoldable pub read_sys_file : Bytes → Bytes → Bool × Bytes
  read_sys_file path out = elim (fs.first_line path) [ none ↦ (false, out) | some l ↦ (true, l) ]

  -- The loop, with the number of rounds that are left.
  unfoldable pub find_from : ℕ → Bytes → Bytes → Bytes → Bytes
  find_from zero dir attr out = []
  find_from (suc i) dir attr out =
      let (found, line) = read_sys_file (dir ++ (slash ∷ attr)) out in
      let above : Bytes = elim (parent dir) [ none ↦ [] | some up ↦ find_from i up attr line ] in
      if is_empty dir then [] else if found && not (is_empty line) then line else above

  unfoldable pub find_attr_upwards : Bytes → Bytes → Bytes
  find_attr_upwards dir attr = find_from 10 dir attr []

  -- The body of the loop for a name whose device directory is known.
  unfoldable pub raw_info : Bytes → Bytes → RawPortInfo
  raw_info name dir =
      let vid = find_attr_upwards dir id_vendor in
      let pid = find_attr_upwards dir id_product in
      let prod = find_attr_upwards dir product in
      let ids = not (is_empty vid) && not (is_empty pid) in
      let v = if ids then hex_to_int vid % 2 ^ 16 else 0 in
      let p = if ids then hex_to_int pid % 2 ^ 16 else 0 in
      record {
        port_name = dev ++ name;
        description = if is_empty prod then find_attr_upwards dir interface else prod;
        manufacturer = find_attr_upwards dir manufacturer;
        serial_number = find_attr_upwards dir serial;
        system_location = dev ++ name;
        vendor_id = v;
        product_id = p;
        has_usb_ids = ids && not (v == 0) && not (p == 0);
      }

  -- "." and ".."
  unfoldable pub is_dots : Bytes → Bool
  is_dots (a ∷ []) = a == 46
  is_dots (a ∷ b ∷ []) = a == 46 && b == 46
  is_dots _ = false

  -- The loop over the directory.
  unfoldable pub collect : List Bytes → List RawPortInfo
  collect [] = []
  collect (name ∷ names) =
      let rest = collect names in
      if is_dots name
      then rest
      else if not (looks_serial name)
      then rest
      else elim (fs.realpath (class_tty ++ name ++ device)) [
        | none ↦ rest
        | some dir ↦ raw_info name dir ∷ rest
      ]

-- `std::sort` by the port name.
unfoldable pub insert : RawPortInfo → List RawPortInfo → List RawPortInfo
insert a [] = a ∷ []
insert a (b ∷ bs) =
    let rest = insert a bs in if before b.port_name a.port_name then b ∷ rest else a ∷ b ∷ bs

unfoldable pub sort : List RawPortInfo → List RawPortInfo
sort [] = []
sort (a ∷ bs) = insert a (sort bs)

unfoldable pub enumerate_ports : Files → List RawPortInfo
enumerate_ports fs = elim fs.entries [ none ↦ [] | some names ↦ sort (collect fs names) ]
