-- ===== src/Chain/Failures.antt =====
-- The error of a pallet as a contract reads it: runtime/devnet/src/config/api/versioning.rs and
-- primitives/src/lib.rs, then pop-api/src/v0/fungibles/errors.rs.
use Prim.Native.String.{String}
use pop_node.Prelude.{ℕ, ◌≡◌, ◌↔◌}
use pop_node.Prelude.Bytes.{Bytes4}
use pop_node.Extension.Environment.{Environment}
use pop_node.Runtime.Pallets.{Pallet}
use pop_node.PopApi.Errors.{FungiblesError, fungibles_error, Psp22Error, psp22_error}

-- The name that `FungiblesError` documents for a situation, and the error of a pallet, by its index,
-- that pop-api/integration-tests/src/fungibles/mod.rs expects of the runtime in that situation. No
-- test is about an account that does not exist, the situation of `NoAccount`.
pub data Documents : FungiblesError → Pallet → ℕ → Type 0 where
  no_balance_for_fees : Documents FungiblesError.no_balance Pallet.balances 2
  not_enough_balance : Documents FungiblesError.insufficient_balance Pallet.assets 0
  contract_not_owner : Documents FungiblesError.no_permission Pallet.assets 2
  token_does_not_exist : Documents FungiblesError.unknown Pallet.assets 3
  token_id_taken : Documents FungiblesError.in_use Pallet.assets 5
  zero_min_balance : Documents FungiblesError.min_balance_zero Pallet.assets 7
  unapproved_transfer : Documents FungiblesError.insufficient_allowance Pallet.assets 10
  token_not_live : Documents FungiblesError.not_live Pallet.assets 16

-- The bytes of an error without fields.
abbrev pub plain : ℕ → Bytes4
plain i = record { byte0 = i; byte1 = 0; byte2 = 0; byte3 = 0 }

-- Of the names, only that of a missing balance is read from the error that stands for it; those of
-- `Psp22Error` are read from theirs and from no other.
abbrev pub ReadAs : FungiblesError → ℕ → Type 0
ReadAs x code =
    ((fungibles_error code ≡ x) ↔ (x ≡ FungiblesError.no_balance))
    × ((psp22_error code ≡ Psp22Error.insufficient_balance)
        ↔ (x ≡ FungiblesError.insufficient_balance))
    × ((psp22_error code ≡ Psp22Error.insufficient_allowance)
        ↔ (x ≡ FungiblesError.insufficient_allowance))
