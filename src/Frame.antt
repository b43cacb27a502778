-- ===== src/Frame.antt =====
-- Types of FRAME and pallet-contracts that the source names. `DispatchError` has the variants that
-- runtime/devnet/src/config/api/versioning.rs matches; of `RetVal` the code builds `Converging` only.
use Prim.Native.String.{String}
use pop_node.Prelude.{ℕ, ◌+◌, ◌≡◌, arith, Option, Result}
use pop_node.Prelude.Bytes.{Bytes4}

-- Accounts, tokens and balances are only compared and computed with.
abbrev pub AccountId : Type 0
AccountId = ℕ

abbrev pub TokenId : Type 0
TokenId = ℕ

abbrev pub Balance : Type 0
Balance = ℕ

pub record Weight : Type 0 where
  pub ref_time : ℕ
  pub proof_size : ℕ

abbrev pub add_weight : Weight → Weight → Weight
add_weight a b = record {
  ref_time = a.ref_time + b.ref_time;
  proof_size = a.proof_size + b.proof_size;
}

-- `TokenError`, `ArithmeticError` and `TransactionalError` of sp-runtime
pub data TokenError : Type 0 where
  funds_unavailable only_provider below_minimum cannot_create unknown_asset : TokenError
  frozen unsupported cannot_create_hold not_expendable blocked : TokenError

pub data ArithmeticError : Type 0 where
  underflow overflow division_by_zero : ArithmeticError

pub data TransactionalError : Type 0 where
  limit_reached no_layer : TransactionalError

-- `module_error index error message` is `Module(ModuleError { index, error, message })`.
pub data DispatchError : Type 0 where
  other : String → DispatchError
  cannot_lookup bad_origin : DispatchError
  module_error : ℕ → Bytes4 → Option String → DispatchError
  consumer_remaining no_providers too_many_consumers : DispatchError
  token : TokenError → DispatchError
  arithmetic : ArithmeticError → DispatchError
  transactional : TransactionalError → DispatchError
  exhausted corruption unavailable root_not_allowed : DispatchError

pub data RetVal : Type 0 where
  converging : ℕ → RetVal

-- What a dispatch ends with: the weight that it used, if it says so, and its result.
pub record DispatchOutcome : Type 0 where
  pub actual_weight : Option Weight
  pub result : Result DispatchError (Unit {0})

pub add_weight_cancel :
    (a b c w : Weight) → add_weight a w ≡ add_weight (add_weight b w) c → a ≡ add_weight b c
add_weight_cancel a b c w h = ground arith
