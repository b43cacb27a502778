-- ===== src/Node/ChainSpec.antt =====
-- node/src/chain_spec.rs: the chain specifications of the three networks. Keys and addresses, the
-- compiled runtimes and the constants of other crates come from outside. A specification holds what its
-- builder is given.
use pop_node.Prelude.{ℕ, ◌*◌, List, [], ◌∷◌, map, Option, none, some}
use pop_node.Frame.{AccountId, Balance}
use pop_node.Common.{milliunit}
use pop_node.Node.Texts.{Text, text}

-- `Relay`
pub data Relay : Type 0 where
  paseo paseo_local polkadot : Relay

-- `Extensions`
pub record Extensions : Type 0 where
  pub relay_chain : Text
  pub para_id : ℕ

-- The entries of `sc_chain_spec::Properties` that the code sets.
pub record Properties : Type 0 where
  pub token_symbol : Text
  pub token_decimals : ℕ
  pub ss58_format : ℕ

-- `configure_for_relay`: the extensions, the parachain's id and the properties that it inserts
unfoldable pub configure_for_relay : Relay → Extensions × ℕ × Properties
configure_for_relay paseo = (
  record { relay_chain = text "paseo"; para_id = 4001 },
  4001,
  record { token_symbol = text "PAS"; token_decimals = 10; ss58_format = 0 },
)
configure_for_relay paseo_local = (
  record { relay_chain = text "paseo-local"; para_id = 4001 },
  4001,
  record { token_symbol = text "PAS"; token_decimals = 10; ss58_format = 42 },
)
configure_for_relay polkadot = (
  record { relay_chain = text "polkadot"; para_id = 3395 },
  3395,
  record { token_symbol = text "DOT"; token_decimals = 10; ss58_format = 0 },
)

-- `sc_service::ChainType`, as far as it is used
pub data ChainType : Type 0 where
  development live : ChainType

-- What comes from elsewhere.
pub record Sources : Type 1 where
  pub AuraId : Type 0
  pub Wasm : Type 0
  pub devnet_binary : Wasm
  pub testnet_binary : Wasm
  pub mainnet_binary : Wasm
  pub account_from_seed : Text → AccountId
  pub aura_from_seed : Text → AuraId
  pub account_from_ss58check : Text → AccountId
  pub aura_from_ss58check : Text → AuraId
  pub mainnet_sudo_address : AccountId
  pub safe_xcm_version : ℕ

-- `ismp_parachain::ParachainData`
pub record ParachainData : Type 0 where
  pub id : ℕ
  pub slot_duration : ℕ

module _ (o : Sources) where
  open o use {AuraId}

  -- A genesis configuration: the JSON object that the code builds, its absent entries as `none`.
  pub record Genesis : Type 0 where
    pub balances : List (AccountId × Balance)
    pub parachain_id : ℕ
    pub invulnerables : List AccountId
    pub candidacy_bond : Balance
    pub desired_candidates : Option ℕ
    pub keys : List (AccountId × AccountId × AuraId)
    pub safe_xcm_version : Option ℕ
    pub sudo_key : Option AccountId
    pub ismp_parachains : Option (List ParachainData)

  pub record Spec : Type 0 where
    pub code : o.Wasm
    pub extensions : Extensions
    pub name : Text
    pub id : Text
    pub chain_type : ChainType
    pub genesis : Genesis
    pub protocol_id : Text
    pub properties : Properties

  -- `EXISTENTIAL_DEPOSIT` of runtime/common/src/lib.rs
  abbrev pub existential_deposit : Balance
  existential_deposit = milliunit

  -- The keys of a session: the account twice, and its key.
  abbrev pub session_entry : AccountId × AuraId → AccountId × AccountId × AuraId
  session_entry (who, aura) = (who, who, aura)

  abbrev account : AccountId × AuraId → AccountId
  account (who, aura) = who

  -- `mainnet_genesis`
  unfoldable pub mainnet_genesis : List (AccountId × AuraId) → AccountId → ℕ → Genesis
  mainnet_genesis invulnerables root id = record {
    balances = [];
    parachain_id = id;
    invulnerables = map account invulnerables;
    candidacy_bond = existential_deposit * 16;
    desired_candidates = some 0;
    keys = map session_entry invulnerables;
    safe_xcm_version = some o.safe_xcm_version;
    sudo_key = some root;
    ismp_parachains = none;
  }

  -- `testnet_genesis`
  unfoldable pub testnet_genesis : List (AccountId × AuraId) → AccountId → ℕ → Genesis
  testnet_genesis invulnerables root id = record {
    balances = [];
    parachain_id = id;
    invulnerables = map account invulnerables;
    candidacy_bond = existential_deposit * 16;
    desired_candidates = none;
    keys = map session_entry invulnerables;
    safe_xcm_version = some o.safe_xcm_version;
    sudo_key = some root;
    ismp_parachains = none;
  }

  -- `devnet_genesis`
  unfoldable pub devnet_genesis : List (AccountId × AuraId) → AccountId → ℕ → Genesis
  devnet_genesis invulnerables root id = record {
    balances = [];
    parachain_id = id;
    invulnerables = map account invulnerables;
    candidacy_bond = existential_deposit * 16;
    desired_candidates = none;
    keys = map session_entry invulnerables;
    safe_xcm_version = some o.safe_xcm_version;
    sudo_key = some root;
    ismp_parachains = some (record { id = 1000; slot_duration = 6000 } ∷ []);
  }

  -- `development_config`
  unfoldable pub development_config : Relay → Spec
  unfolding configure_for_relay devnet_genesis
  development_config relay =
      let (extensions, para_id, properties) = configure_for_relay relay in
      let collator : Text → AccountId × AuraId =
        λ seed. (o.account_from_seed seed, o.aura_from_seed seed) in
      record {
        code = o.devnet_binary;
        extensions = extensions;
        name = text "Pop Network Development";
        id = text "pop-devnet";
        chain_type = development;
        genesis =
            devnet_genesis (collator (text "Alice") ∷ collator (text "Bob") ∷ [])
              (o.account_from_seed (text "Alice")) para_id;
        protocol_id = text "pop-devnet";
        properties = properties;
      }

  abbrev collator_from : Text → AccountId × AuraId
  collator_from address = (o.account_from_ss58check address, o.aura_from_ss58check address)

  -- `testnet_config`
  unfoldable pub testnet_config : Relay → Spec
  unfolding configure_for_relay testnet_genesis
  testnet_config relay =
      let (extensions, para_id, properties) = configure_for_relay relay in
      record {
        code = o.testnet_binary;
        extensions = extensions;
        name = text "Pop Network Testnet";
        id = text "pop-testnet";
        chain_type = live;
        genesis =
            testnet_genesis
              (collator_from (text "5Gn9dVgCNUYtC5JVMBheQQv2x6Lpg5sAMcQVRupG1s3tP2gR")
                ∷ collator_from (text "5FyVvcSvSXCkBwvBEHkUh1VWGGrwaR3zbYBkU3Rc5DqV75S4")
                ∷ collator_from (text "5GMqrQuWpyyBBK7LAWXR5psWvKc1QMqtiyasjp23VNKZWgh6")
                ∷ [])
              (o.account_from_ss58check (text "5FPL3ZLqUk6MyBoZrQZ1Co29WAteX6T6N68TZ6jitHvhpyuD"))
              para_id;
        protocol_id = text "pop-testnet";
        properties = properties;
      }

  -- `mainnet_config`
  unfoldable pub mainnet_config : Relay → Spec
  unfolding configure_for_relay mainnet_genesis
  mainnet_config relay =
      let (extensions, para_id, properties) = configure_for_relay relay in
      record {
        code = o.mainnet_binary;
        extensions = extensions;
        name = text "Pop Network";
        id = text "pop";
        chain_type = live;
        genesis =
            mainnet_genesis
              (collator_from (text "15B6eUkXgoLA3dWruCRYWeBGNC8SCwuqiMtMTM1Zh2auSg3w") ∷ [])
              o.mainnet_sudo_address para_id;
        protocol_id = text "pop";
        properties = properties;
      }
