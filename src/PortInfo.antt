-- ===== src/PortInfo.antt =====
-- src/SerialPortInfo.cpp and src/detail/PortEnumerator.cpp: the ports of the system. A
-- `SerialPortInfo` is a value: its copies and moves are those of the record.
pub mod Hex
pub mod Names
pub mod Enumerator
pub mod Upwards
pub mod Depth
pub mod Windows
pub mod Com
pub mod HardwareId
pub mod Sorted
pub mod Getters
use cross_plaform_serial.Common.{ℕ, Bytes, Bool, true, false, List, [], ◌∷◌, map}
use Enumerator.{Files, RawPortInfo, enumerate_ports}

pub record SerialPortInfo : Type 0 where
  pub port_name : Bytes
  pub description : Bytes
  pub manufacturer : Bytes
  pub serial_number : Bytes
  pub system_location : Bytes
  pub vendor_id : ℕ
  pub product_id : ℕ
  pub is_null : Bool

unfoldable pub new : SerialPortInfo
new = record {
  port_name = [];
  description = [];
  manufacturer = [];
  serial_number = [];
  system_location = [];
  vendor_id = 0;
  product_id = 0;
  is_null = true;
}

unfoldable pub from_raw : RawPortInfo → SerialPortInfo
from_raw r = record {
  port_name = r.port_name;
  description = r.description;
  manufacturer = r.manufacturer;
  serial_number = r.serial_number;
  system_location = r.system_location;
  vendor_id = r.vendor_id;
  product_id = r.product_id;
  is_null = false;
}

unfoldable pub available_ports : Files → List SerialPortInfo
available_ports fs = map from_raw (enumerate_ports fs)

-- `swap`, member by member: this object and the other one afterwards.
unfoldable pub swap : SerialPortInfo → SerialPortInfo → SerialPortInfo × SerialPortInfo
swap a b = (
  record {
    port_name = b.port_name;
    description = b.description;
    manufacturer = b.manufacturer;
    serial_number = b.serial_number;
    system_location = b.system_location;
    vendor_id = b.vendor_id;
    product_id = b.product_id;
    is_null = b.is_null;
  },
  record {
    port_name = a.port_name;
    description = a.description;
    manufacturer = a.manufacturer;
    serial_number = a.serial_number;
    system_location = a.system_location;
    vendor_id = a.vendor_id;
    product_id = a.product_id;
    is_null = a.is_null;
  },
)

abbrev pub standard_baud_rates : List ℕ
standard_baud_rates =
    50 ∷ 75 ∷ 110 ∷ 134 ∷ 150 ∷ 200 ∷ 300 ∷ 600 ∷ 1200 ∷ 1800 ∷ 2400 ∷ 4800 ∷ 9600 ∷ 19200 ∷ 38400
    ∷ 57600 ∷ 115200 ∷ 230400 ∷ 460800 ∷ 500000 ∷ 576000 ∷ 921600 ∷ 1000000 ∷ 1152000 ∷ 1500000
    ∷ 2000000 ∷ 2500000 ∷ 3000000 ∷ 3500000 ∷ 4000000 ∷ []
