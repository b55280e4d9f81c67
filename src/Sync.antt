-- ===== src/Sync.antt =====
-- The stores of src/sync.rs that keep a borrowed conversion alive and write it back.
pub mod MutEncode
pub mod MutDecode
pub mod SliceDecode
pub mod Shared
pub mod WideEncode
