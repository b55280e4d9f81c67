-- ===== src/Derive.antt =====
-- The compile-time logic of the derive crate (derive/src): what the macros compute before they print
-- the conversions.
pub mod Tag
pub mod TupleTree
pub mod Repr
pub mod ReprC
pub mod Symbol
pub mod SymbolText
pub mod Dispatch
pub mod Cycles
pub mod Groups
pub mod SoftLifetimes
pub mod Tokens
pub mod CfgTokens
pub mod CfgAttr
