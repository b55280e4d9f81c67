-- ===== src/Tests.antt =====
-- The theorems at concrete inputs.
mod Conversions
mod Sync
mod Derive
mod Derivation
mod Macros
mod Symbols
mod Calls
mod References
mod Containers
