-- ===== src/PopApi/Fungibles.antt =====
-- pop-api/src/v0/fungibles/mod.rs: the functions that a contract calls.
use pop_node.Prelude.{ℕ, Bool, List, ◌++◌, Option, Exec}
use pop_node.Frame.{AccountId, TokenId, Balance}
use pop_node.Api.Codec.{Reader, pure, Scale}
use pop_node.PopApi
use pop_node.PopApi.{StatusCode, from_status_code, decode_output, fungibles}
use pop_node.PopApi.Indices.{
  total_supply_index, balance_of_index, allowance_index, transfer_index, transfer_from_index,
  approve_index, increase_allowance_index, decrease_allowance_index, token_name_index,
  token_symbol_index, token_decimals_index, create_index, start_destroy_index, set_metadata_index,
  clear_metadata_index, token_exists_index, mint_index, burn_index,
}
use pop_node.PopApi.Ink.{Ink}

-- `build_dispatch`
unfoldable pub build_dispatch : ℕ → ℕ
build_dispatch dispatchable = PopApi.build_dispatch fungibles dispatchable

-- `build_read_state`
unfoldable pub build_read_state : ℕ → ℕ
build_read_state state_query = PopApi.build_read_state fungibles state_query

-- The decoder of `()`, which takes no bytes.
abbrev pub nothing : Reader (Unit {0})
nothing = pure tt

module _ (c : Scale) where
  -- The inputs, by their types.
  abbrev pub owned : TokenId → AccountId → List ℕ
  owned token owner = c.token.encode token ++ c.account.encode owner

  abbrev pub amount : TokenId → AccountId → Balance → List ℕ
  amount token account value =
      c.token.encode token ++ (c.account.encode account ++ c.balance.encode value)

module _ (c : Scale) (ink : Ink) where
  -- `.input().output().handle_error_code::<StatusCode>().call(..)`
  unfoldable pub send : {A : Type 0} → ℕ → List ℕ → Reader A → Exec StatusCode ink.State A
  unfolding from_status_code decode_output
  send method input output = ink.call method input from_status_code (decode_output output)

  unfoldable pub total_supply : TokenId → Exec StatusCode ink.State Balance
  unfolding send build_read_state
  total_supply token =
      send (build_read_state total_supply_index) (c.token.encode token) c.balance.decode

  unfoldable pub balance_of : TokenId → AccountId → Exec StatusCode ink.State Balance
  unfolding send build_read_state
  balance_of token owner =
      send (build_read_state balance_of_index) (owned c token owner) c.balance.decode

  unfoldable pub allowance : TokenId → AccountId → AccountId → Exec StatusCode ink.State Balance
  unfolding send build_read_state
  allowance token owner spender =
      send (build_read_state allowance_index)
        (c.token.encode token ++ (c.account.encode owner ++ c.account.encode spender))
        c.balance.decode

  unfoldable pub transfer : TokenId → AccountId → Balance → Exec StatusCode ink.State (Unit {0})
  unfolding send build_dispatch
  transfer token to value = send (build_dispatch transfer_index) (amount c token to value) nothing

  unfoldable pub transfer_from :
      TokenId → AccountId → AccountId → Balance → Exec StatusCode ink.State (Unit {0})
  unfolding send build_dispatch
  transfer_from token from to value =
      send (build_dispatch transfer_from_index)
        (c.token.encode token
          ++ (c.account.encode from ++ (c.account.encode to ++ c.balance.encode value)))
        nothing

  unfoldable pub approve : TokenId → AccountId → Balance → Exec StatusCode ink.State (Unit {0})
  unfolding send build_dispatch
  approve token spender value =
      send (build_dispatch approve_index) (amount c token spender value) nothing

  unfoldable pub increase_allowance :
      TokenId → AccountId → Balance → Exec StatusCode ink.State (Unit {0})
  unfolding send build_dispatch
  increase_allowance token spender value =
      send (build_dispatch increase_allowance_index) (amount c token spender value) nothing

  unfoldable pub decrease_allowance :
      TokenId → AccountId → Balance → Exec StatusCode ink.State (Unit {0})
  unfolding send build_dispatch
  decrease_allowance token spender value =
      send (build_dispatch decrease_allowance_index) (amount c token spender value) nothing

  unfoldable pub mint : TokenId → AccountId → Balance → Exec StatusCode ink.State (Unit {0})
  unfolding send build_dispatch
  mint token account value = send (build_dispatch mint_index) (amount c token account value) nothing

  unfoldable pub burn : TokenId → AccountId → Balance → Exec StatusCode ink.State (Unit {0})
  unfolding send build_dispatch
  burn token account value = send (build_dispatch burn_index) (amount c token account value) nothing

  -- `metadata`
  unfoldable pub token_name : TokenId → Exec StatusCode ink.State (Option (List ℕ))
  unfolding send build_read_state
  token_name token =
      send (build_read_state token_name_index) (c.token.encode token) c.optional_bytes.decode

  unfoldable pub token_symbol : TokenId → Exec StatusCode ink.State (Option (List ℕ))
  unfolding send build_read_state
  token_symbol token =
      send (build_read_state token_symbol_index) (c.token.encode token) c.optional_bytes.decode

  unfoldable pub token_decimals : TokenId → Exec StatusCode ink.State ℕ
  unfolding send build_read_state
  token_decimals token =
      send (build_read_state token_decimals_index) (c.token.encode token) c.byte.decode

  -- `management`
  unfoldable pub create : TokenId → AccountId → Balance → Exec StatusCode ink.State (Unit {0})
  unfolding send build_dispatch
  create id admin min_balance =
      send (build_dispatch create_index) (amount c id admin min_balance) nothing

  unfoldable pub start_destroy : TokenId → Exec StatusCode ink.State (Unit {0})
  unfolding send build_dispatch
  start_destroy token = send (build_dispatch start_destroy_index) (c.token.encode token) nothing

  unfoldable pub set_metadata : TokenId → List ℕ → List ℕ → ℕ → Exec StatusCode ink.State (Unit {0})
  unfolding send build_dispatch
  set_metadata token name symbol decimals =
      send (build_dispatch set_metadata_index)
        (c.token.encode token
          ++ (c.bytes.encode name ++ (c.bytes.encode symbol ++ c.byte.encode decimals)))
        nothing

  unfoldable pub clear_metadata : TokenId → Exec StatusCode ink.State (Unit {0})
  unfolding send build_dispatch
  clear_metadata token = send (build_dispatch clear_metadata_index) (c.token.encode token) nothing

  unfoldable pub token_exists : TokenId → Exec StatusCode ink.State Bool
  unfolding send build_read_state
  token_exists token =
      send (build_read_state token_exists_index) (c.token.encode token) c.boolean.decode
