-- ===== src/PopApi/Errors.antt =====
-- pop-api/src/v0/fungibles/errors.rs: the errors that contracts make of a status code. Strings are
-- their bytes.
use pop_node.Prelude.{ℕ, ◌^◌, ◌<◌, ◌≡◌, arith, ◌==◌, ◌&&◌, if◌then◌else◌, List, Option, some, none}
use pop_node.Prelude.Bytes.{to_le_bytes, from_le_bytes}
use pop_node.Prelude.Decimal.{to_string, parse, parse-to_string}
use pop_node.PopApi.{StatusCode, module_error, assets, balances}

-- `FungiblesError`
pub data FungiblesError : Type 0 where
  other : StatusCode → FungiblesError
  not_live insufficient_allowance insufficient_balance in_use : FungiblesError
  min_balance_zero no_account no_permission unknown no_balance : FungiblesError

-- `From<StatusCode> for FungiblesError`
unfoldable pub fungibles_error : StatusCode → FungiblesError
fungibles_error value =
    let encoded = to_le_bytes value in
    let pallet = encoded.byte1 in
    let error = encoded.byte2 in
    if pallet == balances && error == 2
    then no_balance
    else if pallet == assets && error == 0
    then no_account
    else if pallet == assets && error == 1
    then no_permission
    else if pallet == assets && error == 2
    then unknown
    else if pallet == assets && error == 3
    then in_use
    else if pallet == assets && error == 5
    then min_balance_zero
    else if pallet == assets && error == 7
    then insufficient_allowance
    else if pallet == assets && error == 10
    then not_live
    else other value

-- `Psp22Error`
pub data Psp22Error : Type 0 where
  custom : List ℕ → Psp22Error
  insufficient_balance insufficient_allowance : Psp22Error
  zero_recipient_address zero_sender_address : Psp22Error
  safe_transfer_check_failed : List ℕ → Psp22Error

-- `From<Psp22Error> for u32`; `none` is a panic.
unfoldable pub into_u32 : Psp22Error → Option ℕ
into_u32 insufficient_balance = some (from_le_bytes module_error assets 0 0)
into_u32 insufficient_allowance = some (from_le_bytes module_error assets 10 0)
into_u32 (custom value) = parse value
into_u32 _ = none

-- `From<StatusCode> for Psp22Error`
unfoldable pub psp22_error : StatusCode → Psp22Error
psp22_error value =
    let encoded = to_le_bytes value in
    let of_assets = encoded.byte0 == module_error && encoded.byte1 == assets in
    if of_assets && encoded.byte2 == 0
    then insufficient_balance
    else if of_assets && encoded.byte2 == 10
    then insufficient_allowance
    else custom (to_string value)

-- A status code whose highest byte is zero is the number of the `Psp22Error` that it is read as.
pub into_u32-psp22_error : (n : ℕ) → n < 2 ^ 24 → into_u32 (psp22_error n) ≡ some n
unfolding into_u32 psp22_error
into_u32-psp22_error n h = ground (arith, parse-to_string n)
