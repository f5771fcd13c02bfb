-- ===== src/PortInfo/Getters.antt =====
-- The getters of `SerialPortInfo`.
use cross_plaform_serial.Common.{ℕ, Bytes, Bool}
use cross_plaform_serial.PortInfo.{SerialPortInfo}

unfoldable pub port_name : SerialPortInfo → Bytes
port_name i = i.port_name

unfoldable pub description : SerialPortInfo → Bytes
description i = i.description

unfoldable pub manufacturer : SerialPortInfo → Bytes
manufacturer i = i.manufacturer

unfoldable pub serial_number : SerialPortInfo → Bytes
serial_number i = i.serial_number

unfoldable pub system_location : SerialPortInfo → Bytes
system_location i = i.system_location

unfoldable pub product_identifier : SerialPortInfo → ℕ
product_identifier i = i.product_id

unfoldable pub vendor_identifier : SerialPortInfo → ℕ
vendor_identifier i = i.vendor_id

unfoldable pub is_null : SerialPortInfo → Bool
is_null i = i.is_null
