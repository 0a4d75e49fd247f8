-- ===== src/Selection.antt =====
-- Selection of inputs for building transactions: libwallet/src/internal/selection.rs.
pub mod Errors
pub mod Coins
pub mod Fee
pub mod Change
pub mod Lock
pub mod Build
