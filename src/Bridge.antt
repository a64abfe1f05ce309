-- ===== src/Bridge.antt =====
-- The native-messaging bridge (bridge/src).
pub mod Nmh
pub mod Client
pub mod Session
pub mod Install
pub mod Cli
