-- ===== src/Qt/Rows.antt =====
-- The list models of the Qt examples: `PortListModel` of examples/qt_serial/portlistmodel.cpp over
-- the C++ interface, and `PortListModelCabi` of examples/qt_serial_cabi/portlistmodel_cabi.cpp over
-- the C interface, which differ in `refresh`. A QString is its UTF-8 text.
use Prim.Native.String.{String}
use cross_plaform_serial.Common.{
  get_elem?, ℕ, ℤ, pos, negsuc, Bytes, Bool, Option, none, some, List, [], ◌∷◌, length, take, ltb,
  if◌then◌else◌,
}
use cross_plaform_serial.PortInfo.{SerialPortInfo}
use cross_plaform_serial.PortInfo.Getters
use cross_plaform_serial.CAbi.Ports.{
  ◌>>=◌, CPortInfo, Heap, lookup, cps_available_ports, cps_free_ports,
}
use cross_plaform_serial.Qt.CText.{c_string}

pub record Entry : Type 0 where
  pub name : Bytes
  pub description : Bytes
  pub manufacturer : Bytes
  pub vid : ℕ
  pub pid : ℕ

-- `Qt::DisplayRole`, the enumerators of `Roles`, and any other value of `int`.
pub data Role : Type 0 where
  display_role port_name_role description_role manufacturer_role vid_role pid_role : Role
  other_role : Role

-- The `QVariant` that `data` returns: invalid, a string, or a number.
pub data Variant : Type 0 where
  invalid : Variant
  text : Bytes → Variant
  number : ℕ → Variant

-- A `QModelIndex`, by what the models ask of it.
pub record Index : Type 0 where
  pub is_valid : Bool
  pub row : ℤ

-- `ports_`, of at most 2 ^ 31 - 1 rows.
abbrev pub Ports : Type 0
Ports = List Entry

unfoldable pub row_count : Index → Ports → ℕ
row_count parent ports = if parent.is_valid then 0 else length ports

-- The element at an `int`, if it is in range.
abbrev at : ℤ → Ports → Option Entry
at (negsuc n) ports = none
at (pos n) ports = get_elem? ports n

unfoldable pub value : Role → Entry → Variant
value display_role e = text e.name
value port_name_role e = text e.name
value description_role e = text e.description
value manufacturer_role e = text e.manufacturer
value vid_role e = number e.vid
value pid_role e = number e.pid
value other_role e = invalid

unfoldable pub data_at : Index → Role → Ports → Variant
unfolding value
data_at index role ports =
    let found : Variant = elim (at index.row ports) [ none ↦ invalid | some e ↦ value role e ] in
    if index.is_valid then found else invalid

unfoldable pub port_name_at : ℤ → Ports → Bytes
port_name_at i ports = elim (at i ports) [ none ↦ [] | some e ↦ e.name ]

unfoldable pub role_names : List (Role × String)
role_names =
    (display_role, "display")
    ∷ (port_name_role, "portName")
    ∷ (description_role, "description")
    ∷ (manufacturer_role, "manufacturer")
    ∷ (vid_role, "vid")
    ∷ (pid_role, "pid")
    ∷ []

-- One round of the loop of `PortListModel::refresh`.
unfoldable pub entry_of : SerialPortInfo → Entry
unfolding Getters.port_name Getters.description Getters.manufacturer Getters.vendor_identifier
    Getters.product_identifier
entry_of p = record {
  name = Getters.port_name p;
  description = Getters.description p;
  manufacturer = Getters.manufacturer p;
  vid = Getters.vendor_identifier p;
  pid = Getters.product_identifier p;
}

-- From the result of `availablePorts()`.
unfoldable pub refresh : List SerialPortInfo → Ports
unfolding entry_of
refresh [] = []
refresh (p ∷ list) = entry_of p ∷ refresh list

-- `safeUtf8`, with the string read through its pointer, which is none of an allocated string if it
-- dangles. No pointer of an entry is null.
unfoldable pub safe_utf8 : ℕ → Heap → Option Bytes
unfolding c_string
safe_utf8 s h = do bytes ← lookup s h.strings; some (c_string bytes)

-- The loop of `PortListModelCabi::refresh`, from an entry of the array on.
unfoldable pub read_entries : List CPortInfo → Heap → Option Ports
unfolding safe_utf8
read_entries [] h = some []
read_entries (p ∷ ps) h = do
  name ← safe_utf8 p.port_name h
  description ← safe_utf8 p.description h
  manufacturer ← safe_utf8 p.manufacturer h
  rest ← read_entries ps h
  let e : Entry = record {
    name = name;
    description = description;
    manufacturer = manufacturer;
    vid = p.vendor_id;
    pid = p.product_id;
  }
  some (e ∷ rest)

-- The first `count` entries of the array at an address; the loop does not run for the null pointer.
unfoldable pub read_array : Option ℕ → ℕ → Heap → Option Ports
unfolding read_entries
read_array none count h = if ltb 0 count then none else some []
read_array (some a) count h = do
  block ← lookup a h.blocks
  read_entries (take count block.entries) h

-- `none` stands for an access to memory that is not allocated. The ports are those that
-- `SerialPortInfo::availablePorts` gives to `cps_available_ports`.
unfoldable pub refresh_cabi : List SerialPortInfo → Heap → Option (Ports × Heap)
unfolding read_array cps_available_ports cps_free_ports
refresh_cabi list h = do
  let (arr, count, h1) = cps_available_ports list h
  ports ← read_array arr count h1
  h2 ← cps_free_ports arr h1
  some (ports, h2)
