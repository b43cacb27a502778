-- ===== src/Examples/Node.antt =====
-- Loading a chain's specification by a name (node/src/command.rs), with no file at all: accounts and keys
-- are the lengths of the texts that they are made from.
use pop_node.Prelude.{ℕ, ◌≡◌, true, false, none, err, [], length, ok}
use pop_node.Node.Texts.{text}
use pop_node.Node.ChainSpec.{Sources, Spec}
use pop_node.Node.Command.{Files, load_spec, load_file}
use pop_node.Node.Loading.{IsRunnable, is_name, load_spec-IsRunnable}

abbrev sources : Sources
sources = record {
  AuraId = ℕ;
  Wasm = ℕ;
  devnet_binary = 1;
  testnet_binary = 2;
  mainnet_binary = 3;
  account_from_seed = length;
  aura_from_seed = length;
  account_from_ss58check = length;
  aura_from_ss58check = length;
  mainnet_sudo_address = 5;
  safe_xcm_version = 4;
}

abbrev files : Files sources
files = record { id_in = λ path. none; from_json_file = λ path. err [] }

load_spec-IsRunnable_example :
    (is_name sources (text "pop-network") ≡ true
      → (s : Spec sources) × (load_spec sources files (text "pop-network") ≡ ok s)
        × IsRunnable sources s)
    × (is_name sources (text "pop-network") ≡ false
        → load_spec sources files (text "pop-network")
          ≡ load_file sources files (text "pop-network"))
load_spec-IsRunnable_example = load_spec-IsRunnable sources files (text "pop-network")
