-- ===== src/Runtime.antt =====
-- runtime/src: the parts of the runtime that are code of this repository.
pub mod Constants
pub mod Weights
pub mod Fees
pub mod Calls
pub mod Genesis
pub mod Apis
pub mod Xcm
pub mod Messages
pub mod Configs
pub mod Pallets
pub mod BlockWeights
mod Examples
