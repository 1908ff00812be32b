-- ===== src/Packet/Field.antt =====
-- The adaptation field: its layout, written by `writePacketAdaptationField` and read by
-- `parsePacketAdaptationField`.
pub mod Layout
pub mod Written
pub mod Read
