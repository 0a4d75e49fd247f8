-- ===== src/Slatepack.antt =====
-- Slatepacks: their binary form, their encryption, their armor and their packing
-- (libwallet/src/slatepack).
pub mod Types
pub mod Write
pub mod Read
pub mod Addresses
pub mod Recipients
pub mod RoundTrip
pub mod Meta
pub mod Crypt
pub mod Appends
pub mod Sealed
pub mod Armor
pub mod Framing
pub mod Integrity
pub mod Packer
pub mod Delivery
pub mod Slates
