-- ===== src/Descriptor.antt =====
-- `descriptor.go`: the descriptors of tables and of elementary streams.
pub mod Frame
pub mod Audio
pub mod Fixed
pub mod Text
pub mod Lists
pub mod LocalTime
pub mod Dispatch
pub mod Kind
