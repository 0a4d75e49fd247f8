-- ===== src/Types.antt =====
-- The data that the wallet keeps: libwallet/src/types.rs.
pub mod Status
pub mod Output
pub mod TokenOutput
pub mod TxLog
pub mod TokenTxLog
pub mod Context
pub mod Info
