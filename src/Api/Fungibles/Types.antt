-- ===== src/Api/Fungibles/Types.antt =====
-- pallets/api/src/fungibles/mod.rs: reads, calls and events of the fungibles pallet, and what it
-- takes from pallet-assets.
use pop_node.Prelude.{ℕ, Bool, List, Option, Result, Exec}
use pop_node.Frame.{AccountId, TokenId, Balance, Weight, DispatchError}

-- `Read`
pub data Read : Type 0 where
  total_supply : TokenId → Read
  balance_of : TokenId → AccountId → Read
  allowance : TokenId → AccountId → AccountId → Read
  token_name token_symbol token_decimals token_exists : TokenId → Read

-- `ReadResult`
pub data ReadResult : Type 0 where
  total_supply balance_of allowance : Balance → ReadResult
  token_name token_symbol : Option (List ℕ) → ReadResult
  token_decimals : ℕ → ReadResult
  token_exists : Bool → ReadResult

-- The dispatchable functions, with their arguments in order.
pub data Call : Type 0 where
  transfer : (token : TokenId) (to : AccountId) (value : Balance) → Call
  transfer_from : (token : TokenId) (from to : AccountId) (value : Balance) → Call
  approve increase_allowance decrease_allowance :
      (token : TokenId) (spender : AccountId) (value : Balance) → Call
  create : (id : TokenId) (admin : AccountId) (min_balance : Balance) → Call
  start_destroy : (token : TokenId) → Call
  set_metadata : (token : TokenId) (name symbol : List ℕ) (decimals : ℕ) → Call
  clear_metadata : (token : TokenId) → Call
  mint burn : (token : TokenId) (account : AccountId) (value : Balance) → Call

-- `Event`
pub data Event : Type 0 where
  approval : (token : TokenId) (owner spender : AccountId) (value : Balance) → Event
  transfer : (token : TokenId) (from to : Option AccountId) (value : Balance) → Event
  created : (id : TokenId) (creator admin : AccountId) → Event

-- `DispatchErrorWithPostInfo`
pub record ErrorWithPostInfo : Type 0 where
  pub actual_weight : Option Weight
  pub error : DispatchError

-- pallet-assets, as far as the pallet uses it, with `ensure_signed` on its origins.
pub record Assets : Type 1 where
  pub State : Type 0
  pub Origin : Type 0
  pub ensure_signed : Origin → Result DispatchError AccountId
  pub transfer_keep_alive :
      Origin → TokenId → AccountId → Balance → Exec DispatchError State (Unit {0})
  pub transfer_approved :
      Origin → TokenId → AccountId → AccountId → Balance → Exec DispatchError State (Unit {0})
  pub approve_transfer :
      Origin → TokenId → AccountId → Balance → Exec DispatchError State (Unit {0})
  pub cancel_approval : Origin → TokenId → AccountId → Exec DispatchError State (Unit {0})
  pub create : Origin → TokenId → AccountId → Balance → Exec DispatchError State (Unit {0})
  pub start_destroy : Origin → TokenId → Exec DispatchError State (Unit {0})
  pub set_metadata : Origin → TokenId → List ℕ → List ℕ → ℕ → Exec DispatchError State (Unit {0})
  pub clear_metadata : Origin → TokenId → Exec DispatchError State (Unit {0})
  pub mint : Origin → TokenId → AccountId → Balance → Exec DispatchError State (Unit {0})
  pub burn : Origin → TokenId → AccountId → Balance → Exec DispatchError State (Unit {0})
  pub total_supply : State → TokenId → Balance
  pub balance : State → TokenId → AccountId → Balance
  pub allowance : State → TokenId → AccountId → AccountId → Balance
  pub name : State → TokenId → List ℕ
  pub symbol : State → TokenId → List ℕ
  pub decimals : State → TokenId → ℕ
  pub asset_exists : State → TokenId → Bool
  pub balance_low : DispatchError
  pub unapproved : DispatchError

-- The trait `WeightInfo` of weights.rs, and the one weight of pallet-assets that a function returns.
pub record WeightInfo : Type 0 where
  pub approve : ℕ → ℕ → Weight
  pub total_supply : Weight
  pub balance_of : Weight
  pub allowance : Weight
  pub token_name : Weight
  pub token_symbol : Weight
  pub token_decimals : Weight
  pub token_exists : Weight
  pub assets_approve_transfer : Weight
