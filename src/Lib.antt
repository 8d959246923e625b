-- ===== src/Lib.antt =====
-- A swarm-robotics parachain: a Substrate runtime with a pallet that keeps a registry of robots and a
-- global queue of commands, the SDK's template pallet, and the node around them.
--
-- Frame and its children are interfaces to crates of the SDK that this repository does not hold:
-- origins, the event record of frame_system, storage maps, bounded vectors, block numbers, weights and
-- fees, each a record of operations with the laws that their documentation gives. Frame/Dispatch is
-- the effect of a dispatchable function: state passing with errors and panics, and no rollback.
-- Host and its children are instances of them, for the examples.
--
-- Swarm is pallets/swarm-robot-pallet/src/lib.rs. Swarm/Types has `Config`, `Command`, `Event`,
-- `Error`, `Call` and the storage; Swarm has `register_robot`, `enqueue_command`, `pull_next` and
-- their dispatch. Swarm/Branch says which branch a call takes; the proofs go by it. Swarm/Errors is
-- about results, Swarm/Log about events, Swarm/Registry about robots, Swarm/Fifo and Swarm/Delivery
-- about the queue, Swarm/Spec and Swarm/Refine about the
-- specification over lists.
--
-- Template is pallets/template/src: `do_something`, `cause_error`, their storage, and in
-- Template/Weights the weights of weights.rs beside those of the `#[pallet::weight]` attributes.
--
-- Runtime is runtime/src: Runtime/Constants and Runtime/Weights have the constants of lib.rs,
-- configs/mod.rs and weights/, Runtime/Fees has `WeightToFee` of lib.rs, and Runtime/Calls puts the two
-- pallets over one storage and one event record, as lib.rs and configs/mod.rs do; the calls of the
-- SDK's pallets are left out of it.
--
-- Runtime/Pallets has the pallets of lib.rs with their indices. Runtime/BlockWeights has the block
-- weights of lib.rs and configs/mod.rs, over the builder of Frame/BlockWeights, and
-- Runtime/BlockWeights/Limits is about them.
--
-- Runtime/Apis is runtime/src/apis.rs, a call being a function of the storage that may panic;
-- Runtime/Apis/Types has what it calls of the SDK, and Runtime/Apis/Payment is about fees.
--
-- Runtime/Xcm is runtime/src/configs/xcm_config.rs. Runtime/Xcm itself has the barrier, put together
-- from the tests of Frame/Xcm, and Runtime/Xcm/Free is about the messages that pass it.
-- Runtime/Xcm/Origins has `LocationToAccountId`, `XcmOriginToTransactDispatchOrigin` and
-- `LocalOriginToLocation`, with `CollatorSelectionUpdateOrigin` of configs/mod.rs, over the converters of
-- Frame/XcmOrigin;
-- Runtime/Xcm/Origins/Accounts is about accounts, Runtime/Xcm/Origins/Transact about the origins that a
-- `Transact` gets, Runtime/Xcm/Origins/Authority about what it can do with them here.
-- Runtime/Xcm/Router has `XcmRouter`, over the routers of Frame/XcmRouter, Runtime/Xcm/Executor
-- `XcmConfig` over Frame/Executor, Runtime/Xcm/Assets `LocalAssetTransactor` over Frame/Transactor,
-- with Runtime/Xcm/Assets/Balances about the balances, and Runtime/Xcm/Pallet the configuration of
-- pallet_xcm; Runtime/Xcm/Pallet/Sends is about who sends messages.
--
-- Runtime/Messages is how configs/mod.rs connects the parachain system, the message queue, the queue of
-- sibling chains and the executor, over the interfaces Frame/Messages and Frame/Executor;
-- Runtime/Messages/Arrivals is about the order of waiting messages, Runtime/Messages/Unpaid about which
-- of them are executed. Runtime/Configs has the settings of the SDK's pallets in configs/mod.rs.
--
-- Runtime/Genesis is runtime/src/genesis_config_presets.rs, over a parametric keyring and serde_json;
-- Runtime/Genesis/Presets is about the presets.
--
-- Node is node/src. Node/Effects is how its code runs: state passing over the record of the calls made
-- of the SDK, with errors and panics; what a call returns is any function of the calls before it.
-- Node/Effects/Laws follows a run through its parts, Node/Effects/Ends is about how it ends.
-- Node/Service is service.rs: `new_partial`, `start_consensus` and `start_parachain_node`, the first of
-- them in Node/Service/Partial; Node/Service/Types has the configuration and the calls,
-- Node/Service/Plan the calls that are planned, Node/Service/Start and Node/Service/Promises the proofs,
-- and Node/Service/Timing is about its times and the runtime's.
-- Node/ChainSpec is chain_spec.rs with `load_spec` of command.rs, Node/ChainSpec/Load is about it.
-- Node/ChainSpec/Served is about the presets that the chain specs name. Node/Rpc is rpc.rs.
-- Node/RelayChainCli is the relay chain's command line of cli.rs and command.rs,
-- Node/RelayChainCli/Configuration the settings that it gives, and
-- Node/RelayChainCli/Settings is about it. Node/Command is `run` of command.rs: Node/Command/Types has
-- the command line and the calls, Node/Command/Plan the calls planned for each subcommand,
-- Node/Command/Steps and Node/Command/Dispatch follow the plan, Node/Command/Promises,
-- Node/Command/Refuse and Node/Command/Offline are about whole runs. A run of the services is lifted
-- into the run of the command line by Node/Effects/Lift.
--
-- Node/Command/About has the texts of the command lines.
--
-- Not modelled: the types that the configurations of runtime/src/configs only pass to the SDK, the
-- transaction extensions of lib.rs, which are a list of types of the SDK, and the help texts of clap.
--
-- There is no fuel: every function recurs on a list. Integers are natural numbers; u32 arguments have
-- their range as a hypothesis where it matters, and the block number type has its own bound and checked
-- addition. A storage value is a field of the state, `none` if it was never put. Events are those of
-- one block, since the record is cleared between blocks.
--
-- The pallets of the SDK, the executive, the codec and the metadata are not modelled: they are not in
-- the repository. Nor are the tests' mock runtime, the benchmarks, the build scripts and the browser
-- interface.
pub mod Common
pub mod Frame
pub mod Host
pub mod Swarm
pub mod Template
pub mod Node
pub mod Runtime
