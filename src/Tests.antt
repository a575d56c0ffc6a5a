-- ===== src/Tests.antt =====
-- Concrete instances of the libraries' records, and the theorems at concrete inputs.
pub mod Library
pub mod Store
pub mod Numbers
pub mod Accesses
pub mod Cells
pub mod Trackers
pub mod Big
pub mod Field
pub mod Reached
pub mod Ids
pub mod Objects
pub mod Sharing
pub mod Run
pub mod Digits
pub mod Msm
pub mod Executing
pub mod Writing
