-- ===== src/Android.antt =====
-- src/detail/AndroidBackend.cpp and src/detail/AndroidBackend.hpp, as compiled for Android.
pub mod Jvm
pub mod Globals
pub mod State
pub mod Calls
pub mod Run
pub mod Implements
pub mod Registered
pub mod Delivery
pub mod Bridge
pub mod Enumerate
pub mod Silent
pub mod Init
pub mod Dirs
