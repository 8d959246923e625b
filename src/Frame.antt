-- ===== src/Frame.antt =====
-- What the pallets use of FRAME and of its dependencies. `Dispatch` is the effect of a dispatchable
-- function; the other modules are interfaces: crates of the SDK that are not in this repository,
-- with what their documentation promises.
pub mod Dispatch
pub mod Origin
pub mod System
pub mod StorageMap
pub mod BoundedVec
pub mod BlockNumbers
pub mod Weight
pub mod Xcm
pub mod XcmOrigin
pub mod XcmRouter
pub mod Executor
pub mod Transactor
pub mod Messages
pub mod Fee
pub mod BlockWeights
