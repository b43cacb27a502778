-- ===== src/Node/Loading.antt =====
-- Which specification an id loads, and whether the node then runs the runtime that the chain runs
-- (node/src/command.rs and node/src/chain_spec.rs).
use pop_node.Prelude.{
  ◌≡◌, refl, Bool, true, false, map, List, ◌∷◌, ok, ◌||◌, some, [], Result, if◌then◌else◌,
}
use pop_node.Frame.{AccountId}
use pop_node.Node.Texts.{Text, text}
use pop_node.Node.ChainSpec.{
  Relay, Sources, Spec, development_config, testnet_config, mainnet_config, configure_for_relay,
  mainnet_genesis, testnet_genesis, devnet_genesis,
}
use pop_node.Node.Command.{
  Runtime, Files, LoadError, runtime, load_spec, load_file, relay_chain_id, relay_chain_cli,
  is_one_of, devnet_names, testnet_names, mainnet_names, local_names,
}

-- The relay chain of each network.
abbrev pub relay_of : Runtime → Text
relay_of Runtime.devnet = text "paseo-local"
relay_of Runtime.testnet = text "paseo"
relay_of Runtime.mainnet = text "polkadot"

module _ (o : Sources) where
  -- The code of the runtime that the node starts.
  abbrev pub binary_of : Runtime → o.Wasm
  binary_of Runtime.devnet = o.devnet_binary
  binary_of Runtime.testnet = o.testnet_binary
  binary_of Runtime.mainnet = o.mainnet_binary

  -- A specification that a node can run: the runtime that its id names is the one whose code it
  -- holds, the relay chain that the node starts by default is that runtime's, the genesis has the
  -- parachain's id of the extensions, every collator has a session key and nobody else does, and
  -- there are collators.
  pub record IsRunnable (s : Spec o) : Type 0 where
    pub runs : s.code ≡ binary_of (runtime s.id)
    pub relays : relay_chain_id (relay_chain_cli (some s.extensions) []) ≡ relay_of (runtime s.id)
    pub parachain : s.genesis.parachain_id ≡ s.extensions.para_id
    pub collators :
        (who : AccountId) × (rest : List AccountId) × (s.genesis.invulnerables ≡ who ∷ rest)
    pub keyed : map (λ k. k.0) s.genesis.keys ≡ s.genesis.invulnerables
    pub validators : map (λ k. k.1) s.genesis.keys ≡ s.genesis.invulnerables

  development-IsRunnable : IsRunnable (development_config o Relay.paseo_local)
  unfolding development_config devnet_genesis configure_for_relay runtime relay_chain_id
      relay_chain_cli
  development-IsRunnable = record {
    runs = refl;
    relays = refl;
    parachain = refl;
    collators = (_, _, refl);
    keyed = refl;
    validators = refl;
  }

  testnet-IsRunnable : IsRunnable (testnet_config o Relay.paseo)
  unfolding testnet_config testnet_genesis configure_for_relay runtime relay_chain_id
      relay_chain_cli
  testnet-IsRunnable = record {
    runs = refl;
    relays = refl;
    parachain = refl;
    collators = (_, _, refl);
    keyed = refl;
    validators = refl;
  }

  mainnet-IsRunnable : IsRunnable (mainnet_config o Relay.polkadot)
  unfolding mainnet_config mainnet_genesis configure_for_relay runtime relay_chain_id
      relay_chain_cli
  mainnet-IsRunnable = record {
    runs = refl;
    relays = refl;
    parachain = refl;
    collators = (_, _, refl);
    keyed = refl;
    validators = refl;
  }

  -- The arms of `load_spec`, given which patterns match.
  named-IsRunnable :
      (b₁ b₂ b₃ b₄ : Bool) (file : Result LoadError (Spec o))
      → let loaded =
          if b₁
          then ok (development_config o Relay.paseo_local)
          else if b₂
          then ok (testnet_config o Relay.paseo)
          else if b₃
          then ok (mainnet_config o Relay.polkadot)
          else if b₄
          then ok (development_config o Relay.paseo_local)
          else file in
        ((b₁ || b₂ || b₃ || b₄) ≡ true → (s : Spec o) × (loaded ≡ ok s) × IsRunnable s)
        × ((b₁ || b₂ || b₃ || b₄) ≡ false → loaded ≡ file)
  named-IsRunnable true b₂ b₃ b₄ file = (λ _. (_, refl, development-IsRunnable), λ p. absurd cc)
  named-IsRunnable false true b₃ b₄ file = (λ _. (_, refl, testnet-IsRunnable), λ p. absurd cc)
  named-IsRunnable false false true b₄ file = (λ _. (_, refl, mainnet-IsRunnable), λ p. absurd cc)
  named-IsRunnable false false false true file =
      (λ _. (_, refl, development-IsRunnable), λ p. absurd cc)
  named-IsRunnable false false false false file = (λ p. absurd cc, λ _. refl)

  -- The names that `load_spec` knows.
  abbrev pub is_name : Text → Bool
  is_name id =
      is_one_of id devnet_names
      || is_one_of id testnet_names
      || is_one_of id mainnet_names
      || is_one_of id local_names

  -- A name that is known loads a specification that a node can run: its code is that of the runtime
  -- that the node picks by the specification's id, the relay chain that the node starts by default
  -- is that of the network, its genesis belongs to the parachain of its extensions, and its
  -- collators are there, with one session key each. Anything else is a file.
  pub load_spec-IsRunnable :
      (files : Files o) (id : Text)
      → (is_name id ≡ true → (s : Spec o) × (load_spec o files id ≡ ok s) × IsRunnable s)
        × (is_name id ≡ false → load_spec o files id ≡ load_file o files id)
  unfolding load_spec
  load_spec-IsRunnable files id =
      named-IsRunnable (is_one_of id devnet_names) (is_one_of id testnet_names)
        (is_one_of id mainnet_names) (is_one_of id local_names) (load_file o files id)
