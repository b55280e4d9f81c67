-- ===== src/Lib.antt =====
-- co3: conversions between Rust types and carriers with a C layout, for calls across a language
-- boundary. A type has a companion (its carrier); an encoder turns a value into a carrier, with a
-- store that keeps what the carrier borrows; a decoder checks a carrier and turns it back; syncing the
-- store writes changes back. A derive crate computes layouts, tags and symbols and prints the glue.
--
-- The parts, and the file that models each:
--
--   Conv           EncodeMove, DecodeMove (src/stored.rs), AbiCompatibleValidate (src/transmute.rs) and
--                  Niche (src/niche.rs) as records of operations, with their contracts IsConv and IsNiche.
--                  A store is a mutable reference in the code and is passed and returned here.
--   Primitive      CBool, UnicodeChar (src/primitive.rs), COrdering (src/cmp.rs).
--   StableOption,  the stable Option and its carriers COption and COptionSome (src/option.rs), and the
--   COption        conversions of both Options, by a tag or by a niche (src/stored.rs, src/transmute.rs).
--   StableResult,  the same for Result: CResult, CResultOk, CResultErr (src/result.rs). The union behind
--   CResult        a tag is read through the payload that was written; a misread has no value.
--   Reverse        core::cmp::Reverse (src/cmp.rs).
--   Unchecked      soft_decode_unchecked of these conversions, with undefined behaviour as no value.
--   Compound       pairs (the macro of src/tuple.rs for two elements) and arrays.
--   Store          the Store trait with its Default and its Drop, and the structural stores of src/sync.rs
--                  and src/tuple.rs, over a state W of the memory.
--   Sync/MutEncode RefMutSizedEncodeStore: encode, finish, sync, drop.
--   Sync/MutDecode RefMutSizedDecodeStore: decode, decode_with, decode_with_order, finish, sync.
--   Sync/SliceDecode, Sync/WideEncode, Sync/Shared
--                  RefMutSliceDecodeStore, RefMutWideEncodeStore, RefSizedEncodeStore,
--                  RefSizedDecodeStore, RefWideEncodeStore, RefDstDecodeStore, RefVecEncodeStore
--                  and RefMutReferenceEncodeStore, all of src/sync.rs.
--   Refs           EncodeRef (src/shared.rs) and DecodeRef (src/decoded.rs) of Option and Result, over a
--                  conversion of references to the payload; IsRefConv is its contract.
--   MutRefs        DecodeMut (src/decoded.rs) of Option and Result, over the store of Sync/MutDecode;
--                  IsMutConv is the contract of the conversion of the fields.
--   Ops            call and soft_call of the C function traits (src/ops.rs), for any number of arguments.
--   Alloc          the allocations that vectors and boxes own, as a heap of cells with their capacity.
--   Vector         Vec, its owner and CVec (src/vec.rs), with push and pop of the standard vector on the
--                  borrowed parts.
--   VecConv        the conversions of vectors (src/vec.rs, src/stored.rs) and strings (src/utf8.rs).
--   Boxed          CBox (src/boxed.rs) and the conversions of a sized Box (src/stored.rs,
--                  src/transmute.rs).
--   Derive/Tag     the tag type, the tags and the niche tag of enums (derive/src/layout/mod.rs,
--                  derive/src/layout/niche.rs).
--   Derive/Repr    parse_repr (derive/src/layout/attr.rs).
--   Derive/TupleTree, Derive/Symbol
--                  build_extern_c_type_tuple and sanitize_symbol_component (derive/src/utils.rs).
--   Derive/SymbolText
--                  validate_symbol_text (derive/src/parse.rs), validate_static_symbol_interpolations
--                  (derive/src/validate.rs) and interpolate_symbol_attrs (derive/src/utils.rs).
--   Derive/ReprC   parse_repr_c_attrs and derive_repr_c (derive/src/layout/mod.rs): the attributes, the
--                  checks of the input with their early returns and panics, the assertions on tags that
--                  are printed, and the choice of the generator. A closure is its number of arguments.
--   Derive/Groups  parse_dispatch_attr and its parts (derive/src/parse.rs), and the substitution of
--                  for_dispatch_group (derive/src/utils.rs). What syn has parsed is the input.
--   Derive/SoftLifetimes
--                  explicitize_signature_lifetimes (derive/src/ffi_fn.rs) and validate_soft_lifetimes
--                  (derive/src/validate.rs). A type is what a visitor of lifetimes sees of it.
--   Derive/Dispatch  for_each_combination (derive/src/lib.rs).
--   Derive/Cycles  validate_dispatch_cycles (derive/src/parse.rs); a parameter is its rank in the order of
--                  identifiers.
--   Derive/Tokens, Derive/CfgTokens, Derive/CfgAttr
--                  the token trees of a macro's input and their expansion by conditional attributes
--                  (derive/src/cfg_attr.rs).
--   Tests          the theorems at concrete inputs.
--
-- The composite conversions take the conversions of their parts as parameters, and their laws take
-- IsConv and IsNiche of the parts. The write-back stores take the store of the fields, decode_move,
-- encode_move, the drop of a value and the writes through a pointer as parameters over W; their laws
-- assume of the memory what exclusive access gives (the records named IsExclusive).
--
-- Fuel: the printed loop of gen_enum_niche_tag has 2 ^ w rounds, one for each tag of w bits; the loop
-- of build_extern_c_type_tuple has as many rounds as there are types, and each round leaves fewer
-- nodes; chunks has as much fuel as elements. The nesting of cfg_attr is expanded with as much fuel as
-- the tokens are deep, and the search for a dispatch cycle has as many rounds as there are parameters,
-- each of which resolves one.
--
-- Parameters for code that is not in the repository: the growth of an allocation, the UTF-8 decoder of
-- the standard library, and the printing of tokens. An allocation by Vec::with_capacity has exactly
-- the capacity asked for, as tests/abi/cvec.rs expects; the standard library promises at least that.
-- Whether a type mentions a parameter or Self is a parameter too: ParamUseDetector
-- (derive/src/utils.rs) and UsesSelf (derive/src/parse.rs) run the visitor of syn over its trees.
--
-- Not modelled: panics, and what unwinding drops, but for the owner of a vector and the panics of
-- derive_repr_c; Debug, Hash and Clone; the encoding of mutable references field by field
-- (src/mutable.rs), and references to other composite types than Option and Result; vectors of
-- zero-sized elements, their iterators and extend; boxed slices and strings (OwnedBoxCarrier in
-- src/boxed.rs and src/utf8.rs); wide references beyond their null test; the other parsers of the
-- derive crate, which work on syn trees, and its printers.
pub mod Prelude
pub mod Conv
pub mod Primitive
pub mod StableOption
pub mod COption
pub mod StableResult
pub mod CResult
pub mod Compound
pub mod Reverse
pub mod Unchecked
pub mod Store
pub mod Alloc
pub mod Vector
pub mod VecConv
pub mod Boxed
pub mod Sync
pub mod Ops
pub mod Refs
pub mod MutRefs
pub mod Derive
pub mod Tests
