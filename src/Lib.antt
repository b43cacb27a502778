-- ===== src/Lib.antt =====
-- Pop Network's API for contracts, from a contract's call to the fungibles pallet and back.
--
-- A contract calls a function of the library pop-api, which makes a call of the chain extension.
-- The chain extension (extension) picks a function by the identifier, decodes the input, charges
-- weight, and dispatches a call or reads state. The runtime's configuration
-- (runtime/devnet/src/config/api; the testnet's files are the same) says which functions there are,
-- which calls pass the filter and how errors become status codes. The fungibles pallet
-- (pallets/api) carries calls and reads out on pallet-assets.
--
-- The files, and the code they model:
--   Primitives.antt: primitives/src/lib.rs. `encode`, `decode`: the derived codec of `Error`;
--   `to_u32`, `from_u32`: the conversions to and from the status code.
--   Extension.antt: extension/src. `Environment` is a record of what the code may ask of
--   pallet-contracts; `dispatch_call` is `DispatchCall::execute`, `read_state` is
--   `ReadState::execute`, `execute_tuple` the implementation of `Function` for tuples, `call` is
--   `Extension::call`.
--   Api.antt: pallets/api/src. Api.Extension: the bytes of the identifier, `Prepender` and the
--   versioned converters. Api.Fungibles: `Calls` has the dispatchable functions, `Reads` the
--   reads, `Codec` the derived decoders, `Dispatch` the table of calls; pallet-assets is the
--   record `Assets`.
--   Runtime.antt: runtime/devnet/src/config/api and the base filter of runtime/devnet/src/lib.rs.
--   `functions` is `Config::Functions`; `Host` holds what the runtime gets from elsewhere.
--   Runtime.Metering: what a call costs; Unanswered: the requests that get no answer.
--   PopApi.antt: pop-api/src. `Ink` is what the library uses of ink!; `Fungibles` has the
--   functions that a contract calls, `Errors` the errors it makes of a status code.
--   Contract.antt: pop-api/examples/fungibles/lib.rs, the contract of one token; Contract.Tester:
--   the contracts of pop-api/integration-tests; Contract.Proxy: that of extension/contract;
--   Contract.Sending: the call that a message makes.
--   Chain.antt: how the parts are composed. `Executes` is what pallet-contracts does with a call of
--   the chain extension, `Dispatches` what FRAME does with a dispatch; over them a function of
--   pop-api is followed through extension and the runtime to pallets/api and back; Sessions follows
--   any sequence of them, and Tokens the messages of the contract of one token: Creating begins with
--   the constructor, Reading has the messages that read, Interleaving and Unattended have the
--   messages alternate with what others do. Failures: how a pallet's error is read;
--   Creators: who is told to have created a token.
--   Api.Fungibles.Weights: what the functions say that they used; Declared: the attributes
--   `pallet::weight` of pallets/api/src/fungibles/mod.rs, Measured:
--   pallets/api/src/fungibles/weights.rs.
--   Api.Fungibles.Table: the abstract table that the adjustments of allowances are compared with.
--   Api.Fungibles.Running: any sequence of calls, with the predicates that all functions preserve;
--   Api.Fungibles.Events: which events each call deposits; Custody: an account that signs nothing;
--   Supply and Balances: what the events say of a token's supply and balances, and Books of both.
--   Runtime.Proxy: the filters of runtime/devnet/src/config/proxy.rs and of the mainnet's.
--   Runtime.Xcm: the filters of runtime/devnet/src/config/xcm.rs. Runtime.Fees: the deposit and the
--   fees of runtime/mainnet/src/lib.rs, and the weight fee of runtime/devnet/src/lib.rs.
--   Runtime.Deposits: deposits of runtime/devnet/src/config and runtime/common/src/lib.rs.
--   Runtime.Pallets: the pallets of runtime/devnet/src/lib.rs and their indices.
--   Node.antt: node/src/chain_spec.rs, and of node/src/command.rs and cli.rs what belongs to an id.
--   Texts are lists of code points; `Sources` and `Files` hold keys, binaries and files.
--   Common.antt: `deposit` and `ProxyType` of runtime/common/src/lib.rs.
--   Frame.antt: the types of FRAME and pallet-contracts that the source names. Prelude: shared
--   helpers, with what the source uses of Rust's standard library. Examples: the theorems at
--   concrete inputs.
--
-- State is passed explicitly: `Exec E S A` is a function from a state to a result and a state, and
-- keeps what was written before a failure. Machine integers are native numbers, with their bounds
-- as hypotheses where a theorem needs them; accounts, tokens and balances are numbers. A byte is a
-- number below 256. No loop of the source needs fuel; `decimal` has fuel for the ten digits of a
-- `u32`.
--
-- Parameters, with hypotheses that state what they document: pallet-contracts (`Environment`,
-- `Meter`, `KeepsChain`, `KeepsRequest`, `Receives`, `Executes`; that a contract can pay is `Pays` and
-- `PaysRead`), FRAME's dispatch (`DispatchLaws`, `RefusesFiltered`, `Dispatches`, which rolls a
-- failure back), its weights and polynomials (`Weighing`, `Saturates`, `Polynomials`, `Evaluates`),
-- pallet-assets (`Assets`, `ApprovalLaws`, `BurnLaws`, `SupplyLaws`, `BalanceLaws`,
-- `AllowanceLaws`), the SCALE codec (`Codec`), ink! (`Ink`),
-- weights (`WeightInfo`, `ApproveWeighs`, `AssetsWeightInfo`).
--
-- A call of the chain extension that fails instead of converging ends the contract: the model of
-- ink! says nothing of it.
--
-- Not modelled: pallets/nfts, a fork of FRAME's pallet; the services of node, which are input, output
-- and glue; the pallets that the runtimes configure, with their lists of types and constants; the
-- benchmarks; logging.
pub mod Prelude
pub mod Primitives
pub mod Frame
pub mod Extension
pub mod Api
pub mod Runtime
pub mod PopApi
pub mod Contract
pub mod Node
pub mod Chain
pub mod Common
pub mod Examples
