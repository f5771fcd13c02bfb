-- ===== src/Android/Enumerate.antt =====
-- `enumeratePorts` of src/detail/AndroidBackend.cpp.
use cross_plaform_serial.Common.{
  ℕ, ℤ, Bytes, not, ◌&&◌, List, [], ◌∷◌, Option, none, some, ◌==◌, if◌then◌else◌, to_unsigned, ◌%◌,
  ◌^◌,
}
use cross_plaform_serial.PortInfo.Enumerator.{RawPortInfo}
use cross_plaform_serial.Android.Jvm.{Jvm, CpsPortInfo, Element, raises, null_element, info}
use cross_plaform_serial.Android.Globals.{Globals, jni_thread}

-- `getStr`
unfoldable pub get_str : Option Bytes → Bytes
get_str none = []
get_str (some s) = s

-- `static_cast<std::uint16_t>` of a field, where both fields are there.
unfoldable pub get_id : Option ℤ → Option ℤ → ℕ
get_id none other = 0
get_id (some n) none = 0
get_id (some n) (some other) = to_unsigned n % 2 ^ 16

unfoldable pub read_info : CpsPortInfo → RawPortInfo
unfolding get_str get_id
read_info i =
    let v = get_id i.vid i.pid in
    let p = get_id i.pid i.vid in
    record {
      port_name = get_str i.name;
      description = get_str i.description;
      manufacturer = get_str i.manufacturer;
      serial_number = get_str i.serial_number;
      system_location = get_str i.system_location;
      vendor_id = v;
      product_id = p;
      has_usb_ids = not (v == 0) && not (p == 0);
    }

-- The loop: an element that raises or is null is left out.
unfoldable pub read_all_infos : List Element → List RawPortInfo
unfolding read_info
read_all_infos [] = []
read_all_infos (raises ∷ es) = read_all_infos es
read_all_infos (null_element ∷ es) = read_all_infos es
read_all_infos (info i ∷ es) = read_info i ∷ read_all_infos es

module _ {j : Jvm} where
  -- Exceptions are cleared as they come up.
  unfoldable pub enumerate_ports : Globals j → Globals j × List RawPortInfo
  unfolding read_all_infos jni_thread
  enumerate_ports g =
      let (t, h) = jni_thread g in
      let (arr, w) = j.call_enumerate h.world in
      if not (g.bridge_class && g.mid_enumerate)
      then (g, [])
      else if not t.ok
      then (h, [])
      else if j.exception w
      then (record h { world = j.exception_clear w }, [])
      else elim arr [
        | none ↦ (record h { world = w }, [])
        | some es ↦ (record h { world = w }, read_all_infos es)
      ]
