-- ===== src/SlateVersions.antt =====
-- Slate versions: libwallet/src/slate_versions.
pub mod Wire
pub mod Flags
pub mod V4
pub mod V4Tx
pub mod V4Bin
