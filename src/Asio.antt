-- ===== src/Asio.antt =====
-- src/detail/AsioBackend.cpp.
pub mod State
pub mod Config
pub mod Io
pub mod Lifecycle
pub mod Run
pub mod Invariant
pub mod Closing
pub mod Reachable
pub mod Counting
pub mod Stream
pub mod Line
pub mod Reopen
pub mod ReadLoop
pub mod Stalled
pub mod Sessions
pub mod Implements
pub mod Clearing
pub mod Progress
pub mod Settings
pub mod Windows
pub mod Purged
