-- ===== src/HintUtils.antt =====
-- crates/cairo-addons/src/vm/hint_utils/mod.rs: what the hints share to read and write the Cairo
-- program's values: byte sequences, `Uint384` and `Uint256`, packing numbers into limbs.
pub mod Sequence
pub mod Limbs
pub mod Uint384
pub mod Uint256
pub mod Round
pub mod Memory
