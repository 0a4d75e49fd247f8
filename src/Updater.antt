-- ===== src/Updater.antt =====
-- Utilities to check the status of all the outputs the wallet knows: libwallet/src/internal/updater.rs.
-- `chrono::Utc::now()` is an argument; the log lines are left out.
pub mod Query
pub mod Maps
pub mod Apply
pub mod ApplyTokens
pub mod Cancel
pub mod Info
pub mod Coinbase
