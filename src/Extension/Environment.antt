-- ===== src/Extension/Environment.antt =====
-- extension/src/environment.rs: what the chain extension may ask of the executing contract, as a
-- record of operations on a state. `State` holds everything that an operation may change: the gas
-- meter, the contract's memory and the chain. pallet-contracts implements it.
use pop_node.Prelude.{ℕ, Bool, Option, List, Result, Exec}
use pop_node.Frame.{AccountId, Weight, DispatchError}

-- The traits `Environment`, `BufIn`, `BufOut` and `Ext`.
pub record Environment : Type 1 where
  pub State : Type 0
  pub ChargedAmount : Type 0
  pub func_id : State → ℕ
  pub ext_id : State → ℕ
  pub charge_weight : Weight → Exec DispatchError State ChargedAmount
  pub adjust_weight : ChargedAmount → Weight → State → State
  pub address : State → AccountId
  pub in_len : State → ℕ
  pub read : ℕ → State → Result DispatchError (List ℕ)
  pub write : List ℕ → Bool → Option Weight → Exec DispatchError State (Unit {0})
