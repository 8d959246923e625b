-- ===== src/Node.antt =====
-- node/src: the node around the runtime.
pub mod ChainSpec
pub mod Command
pub mod Effects
pub mod RelayChainCli
pub mod Service
pub mod Rpc
