-- ===== src/Qt.antt =====
-- The controllers and the list models of examples/qt_serial and examples/qt_serial_cabi.
pub mod Link
pub mod Gui
pub mod Protocol
pub mod Refines
pub mod Steps
pub mod Told
pub mod Settled
pub mod Races
pub mod Rows
pub mod Refreshed
pub mod Desktop
pub mod Notified
pub mod Heard
pub mod Shown
pub mod Serial
pub mod CText
pub mod Handle
pub mod SerialShown
pub mod HandleShown
