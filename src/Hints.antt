-- ===== src/Hints.antt =====
-- crates/cairo-addons/src/vm/hint_definitions: the hints, a module for each of its files.
pub mod Maths
pub mod BytesHints
pub mod Ethereum
pub mod Circuits
pub mod Curve
pub mod Precompiles
pub mod Dict
pub mod HashDict
pub mod Invariant
pub mod Utils
