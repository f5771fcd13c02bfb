-- ===== src/Tests/Ports.antt =====
-- src/detail/PortEnumerator.cpp on a file system with two devices, and their array in the C
-- interface.
use cross_plaform_serial.PortInfo.Depth.{find_attr_upwards-enough}
use cross_plaform_serial.Qt.Refreshed.{refresh_cabi-refresh, cut}
use cross_plaform_serial.PortInfo.Getters
use cross_plaform_serial.Qt.Rows.{refresh_cabi, entry_of, refresh}
use mathlib.Core.List.{Perm}
use cross_plaform_serial.PortInfo.{from_raw, available_ports}
use cross_plaform_serial.CAbi.Ports.{Heap, cps_available_ports, cps_free_ports}
use cross_plaform_serial.CAbi.Freed.{cps_free_ports-cps_available_ports}
use cross_plaform_serial.Common.{
  ℕ, map, length, Bytes, List, [], ◌∷◌, ◌≡◌, refl, arith, Option, none, some, ◌==◌, if◌then◌else◌,
}
use cross_plaform_serial.PortInfo.Names.{before, starts_with, starts_with_any, looks_serial, parent}
use cross_plaform_serial.PortInfo.Enumerator.{
  raw_info, is_dots, insert, sort, Files, find_from, read_sys_file, enumerate_ports, collect,
  find_attr_upwards, id_vendor,
}
use cross_plaform_serial.PortInfo.Upwards.{IsNearest, find_attr_upwards-IsNearest}
use cross_plaform_serial.PortInfo.Sorted.{IsSorted, enumerate_ports-IsSorted}

-- ttyS1, ttyS0, "." and "null"; every device is the directory /d/u, and the vendor 10c4 is the
-- first line of /d/idVendor, the only path of its length.
abbrev line_of : Bytes → Option Bytes
line_of path = if length path == 11 then some (49 ∷ 48 ∷ 99 ∷ 52 ∷ []) else none

abbrev entries : List Bytes
entries =
    (116 ∷ 116 ∷ 121 ∷ 83 ∷ 49 ∷ [])
    ∷ (116 ∷ 116 ∷ 121 ∷ 83 ∷ 48 ∷ [])
    ∷ (46 ∷ [])
    ∷ (110 ∷ 117 ∷ 108 ∷ 108 ∷ [])
    ∷ []

abbrev device : Bytes
device = 47 ∷ 100 ∷ 47 ∷ 117 ∷ []

abbrev files : Files
files = record { entries = some entries; first_line = line_of; realpath = λ path. some device }

found_vendor : find_attr_upwards files device id_vendor ≡ 49 ∷ 48 ∷ 99 ∷ 52 ∷ []
unfolding find_attr_upwards find_from read_sys_file parent
found_vendor = refl

find_attr_upwards-IsNearest_example :
    IsNearest files id_vendor 10 device (find_attr_upwards files device id_vendor)
find_attr_upwards-IsNearest_example = find_attr_upwards-IsNearest files id_vendor device

enumerate_ports-IsSorted_example :
    IsSorted (enumerate_ports files) × Perm (enumerate_ports files) (collect files entries)
enumerate_ports-IsSorted_example = enumerate_ports-IsSorted files entries refl

listed :
    map (λ r. r.port_name) (enumerate_ports files)
    ≡ (47 ∷ 100 ∷ 101 ∷ 118 ∷ 47 ∷ 116 ∷ 116 ∷ 121 ∷ 83 ∷ 48 ∷ [])
      ∷ (47 ∷ 100 ∷ 101 ∷ 118 ∷ 47 ∷ 116 ∷ 116 ∷ 121 ∷ 83 ∷ 49 ∷ [])
      ∷ []
unfolding enumerate_ports collect sort insert is_dots looks_serial starts_with_any starts_with
    before raw_info
listed = refl

-- One string is allocated before.
abbrev heap : Heap
heap = record { next = 4; strings = (3, 7 ∷ []) ∷ []; blocks = [] }

cps_free_ports-cps_available_ports_example :
    let (p, n, h1) = cps_available_ports (available_ports files) heap in
    (n ≡ length (available_ports files))
    × ((k : ℕ) × (cps_free_ports p h1 ≡ some (record heap { next = k })))
cps_free_ports-cps_available_ports_example =
    cps_free_ports-cps_available_ports (available_ports files) heap (omega arith, tt)

refresh_cabi-refresh_example :
    (k : ℕ) × (refresh_cabi (available_ports files) heap
      ≡ some (map cut (refresh (available_ports files)), record heap { next = k }))
refresh_cabi-refresh_example = refresh_cabi-refresh (available_ports files) heap (omega arith, tt)

rows :
    map (λ e. e.name) (refresh (available_ports files))
    ≡ map (λ p. p.port_name) (available_ports files)
unfolding refresh entry_of Getters.port_name enumerate_ports collect sort insert is_dots
    looks_serial starts_with_any starts_with before raw_info available_ports from_raw
rows = refl

find_attr_upwards-enough_example :
    find_from files 20 device id_vendor [] ≡ find_attr_upwards files device id_vendor
find_attr_upwards-enough_example =
    find_attr_upwards-enough files id_vendor device 20 (omega arith) (omega arith)
