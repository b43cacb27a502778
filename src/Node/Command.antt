-- ===== src/Node/Command.antt =====
-- node/src/command.rs: which runtime and which specification belong to an id. Files and their JSON come
-- from outside.
use pop_node.Prelude.{
  Bool, false, ◌||◌, List, [], ◌∷◌, Option, none, some, Result, ok, err, if◌then◌else◌,
}
use pop_node.Node.Texts.{Text, text, same_text, starts_with, ends_with}
use pop_node.Node.ChainSpec.{
  Relay, Extensions, Sources, Spec, development_config, testnet_config, mainnet_config,
}

-- `Runtime`
pub data Runtime : Type 0 where
  devnet testnet mainnet : Runtime

-- `runtime`
unfoldable pub runtime : Text → Runtime
runtime id =
    if starts_with id (text "dev") || ends_with id (text "devnet")
    then devnet
    else if starts_with id (text "test") || ends_with id (text "testnet")
    then testnet
    else if same_text id (text "pop") || ends_with id (text "mainnet")
    then mainnet
    else devnet

-- The file system: the id that `EmptyChainSpecWithId` reads, where the file is there and holds one, and
-- `GenericChainSpec::from_json_file`.
pub record Files (o : Sources) : Type 0 where
  pub id_in : Text → Option Text
  pub from_json_file : Text → Result Text (Spec o)

-- What a failure of `load_spec` is: a message, or the `expect` on the file.
pub data LoadError : Type 0 where
  message : Text → LoadError
  panic : LoadError

abbrev pub is_one_of : Text → List Text → Bool
is_one_of id [] = false
is_one_of id (t ∷ ts) = same_text id t || is_one_of id ts

-- The patterns of `load_spec`.
abbrev pub devnet_names : List Text
devnet_names = text "dev" ∷ text "devnet" ∷ text "dev-paseo" ∷ []

abbrev pub testnet_names : List Text
testnet_names = text "test" ∷ text "testnet" ∷ text "pop-paseo" ∷ []

abbrev pub mainnet_names : List Text
mainnet_names = text "pop" ∷ text "mainnet" ∷ text "pop-polkadot" ∷ text "pop-network" ∷ []

abbrev pub local_names : List Text
local_names = text "" ∷ text "local" ∷ []

abbrev read_file : {A : Type 0} → Result Text A → Result LoadError A
read_file (ok a) = ok a
read_file (err m) = err (message m)

module _ (o : Sources) (files : Files o) where
  -- The last arm of `load_spec`: a file.
  unfoldable pub load_file : Text → Result LoadError (Spec o)
  unfolding runtime
  load_file path = elim (files.id_in path) [
    | none ↦ err panic
    | some id ↦ elim (runtime id) [
      | devnet ↦ read_file (files.from_json_file path)
      | testnet ↦ read_file (files.from_json_file path)
      | mainnet ↦ read_file (files.from_json_file path)
    ]
  ]

  -- `load_spec`
  unfoldable pub load_spec : Text → Result LoadError (Spec o)
  unfolding load_file
  load_spec id =
      if is_one_of id devnet_names
      then ok (development_config o Relay.paseo_local)
      else if is_one_of id testnet_names
      then ok (testnet_config o Relay.paseo)
      else if is_one_of id mainnet_names
      then ok (mainnet_config o Relay.polkadot)
      else if is_one_of id local_names
      then ok (development_config o Relay.paseo_local)
      else load_file id

-- `RelayChainCli`: the chain's id on the command line is that of `base`.
pub record RelayChainCli : Type 0 where
  pub base_chain_id : Text
  pub chain_id : Option Text

-- `RelayChainCli::new`, given the extensions of the parachain's specification
unfoldable pub relay_chain_cli : Option Extensions → Text → RelayChainCli
relay_chain_cli none base = record { base_chain_id = base; chain_id = none }
relay_chain_cli (some x) base = record { base_chain_id = base; chain_id = some x.relay_chain }

-- `RelayChainCli::chain_id`, where `base`'s succeeds
unfoldable pub relay_chain_id : RelayChainCli → Text
relay_chain_id cli =
    if same_text cli.base_chain_id []
    then elim cli.chain_id [ none ↦ [] | some id ↦ id ]
    else cli.base_chain_id
