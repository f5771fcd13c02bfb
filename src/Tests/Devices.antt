-- ===== src/Tests/Devices.antt =====
-- The Windows branch of src/detail/PortEnumerator.cpp on two devices.
use cross_plaform_serial.Common.{ℕ, true, false, List, [], ◌∷◌, ◌≡◌, refl, arith, some, ◌++◌, map}
use cross_plaform_serial.PortInfo.Enumerator.{RawPortInfo}
use cross_plaform_serial.PortInfo.Names.{starts_with}
use cross_plaform_serial.PortInfo.Windows.{
  Setup, DeviceInfo, com_token, leading_digits, set_ids, enumerate_devices, collect_devices,
  device_info, extract_com_name, win_narrow,
}
use cross_plaform_serial.PortInfo.HardwareId.{set_ids-usb_id, usb_id}

-- COM12
abbrev com12 : List ℕ
com12 = 67 ∷ 79 ∷ 77 ∷ 49 ∷ 50 ∷ []

-- Port (COM12)
abbrev friendly : List ℕ
friendly = (80 ∷ 111 ∷ 114 ∷ 116 ∷ 32 ∷ 40 ∷ []) ++ com12 ++ (41 ∷ [])

-- A device with that name, and one whose name has no token.
abbrev found : DeviceInfo
found = record {
  friendly = (true, friendly);
  description = (true, 80 ∷ []);
  manufacturer = (false, []);
  hardware_id = (true, usb_id true 1027 24577 []);
}

abbrev nameless : DeviceInfo
nameless = record found { friendly = (true, 67 ∷ 79 ∷ 77 ∷ []) }

abbrev api : Setup
api = record { devices = some (nameless ∷ found ∷ []); to_utf8 = λ w. some w }

names : map (λ r. r.port_name) (enumerate_devices api) ≡ com12 ∷ []
unfolding enumerate_devices collect_devices device_info extract_com_name com_token win_narrow
    starts_with leading_digits set_ids
names = refl

abbrev blank : RawPortInfo
blank = record {
  port_name = com12;
  description = [];
  manufacturer = [];
  serial_number = [];
  system_location = com12;
  vendor_id = 0;
  product_id = 0;
  has_usb_ids = false;
}

set_ids-usb_id_example :
    set_ids (usb_id true 1027 24577 []) blank
    ≡ record blank { vendor_id = 1027; product_id = 24577; has_usb_ids = true }
set_ids-usb_id_example = set_ids-usb_id true 1027 24577 [] blank (omega arith) (omega arith)
