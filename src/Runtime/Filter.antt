-- ===== src/Runtime/Filter.antt =====
-- runtime/devnet/src/config/api/mod.rs: the filters of the chain extension.
use pop_node.Prelude.{Bool, true, false, not, ◌&&◌}
use pop_node.Api.Fungibles.Types.{Call, Read}
use pop_node.Runtime.Calls.{BalancesCall, RuntimeCall, RuntimeRead}

-- `FilteredCalls::contains`
unfoldable pub filtered_calls : {Other : Type 0} → RuntimeCall Other → Bool
filtered_calls (RuntimeCall.balances BalancesCall.force_adjust_total_issuance) = true
filtered_calls (RuntimeCall.balances BalancesCall.force_set_balance) = true
filtered_calls (RuntimeCall.balances BalancesCall.force_transfer) = true
filtered_calls (RuntimeCall.balances BalancesCall.force_unreserve) = true
filtered_calls _ = false

-- `EverythingBut<FilteredCalls>`
unfoldable pub base_call_filter : {Other : Type 0} → RuntimeCall Other → Bool
unfolding filtered_calls
base_call_filter c = not (filtered_calls c)

-- The pattern of the filter's `matches!`.
unfoldable pub is_api_call : {Other : Type 0} → RuntimeCall Other → Bool
is_api_call (RuntimeCall.fungibles (Call.transfer _ _ _)) = true
is_api_call (RuntimeCall.fungibles (Call.transfer_from _ _ _ _)) = true
is_api_call (RuntimeCall.fungibles (Call.approve _ _ _)) = true
is_api_call (RuntimeCall.fungibles (Call.increase_allowance _ _ _)) = true
is_api_call (RuntimeCall.fungibles (Call.decrease_allowance _ _ _)) = true
is_api_call (RuntimeCall.fungibles (Call.create _ _ _)) = true
is_api_call (RuntimeCall.fungibles (Call.set_metadata _ _ _ _)) = true
is_api_call (RuntimeCall.fungibles (Call.start_destroy _)) = true
is_api_call (RuntimeCall.fungibles (Call.clear_metadata _)) = true
is_api_call (RuntimeCall.fungibles (Call.mint _ _ _)) = true
is_api_call (RuntimeCall.fungibles (Call.burn _ _ _)) = true
is_api_call _ = false

-- `Contains<RuntimeCall> for Filter<T>`
unfoldable pub contains_call : {Other : Type 0} → RuntimeCall Other → Bool
unfolding base_call_filter is_api_call
contains_call c = base_call_filter c && is_api_call c

-- `Contains<RuntimeRead> for Filter<T>`
unfoldable pub contains_read : RuntimeRead → Bool
contains_read (RuntimeRead.fungibles (Read.total_supply _)) = true
contains_read (RuntimeRead.fungibles (Read.balance_of _ _)) = true
contains_read (RuntimeRead.fungibles (Read.allowance _ _ _)) = true
contains_read (RuntimeRead.fungibles (Read.token_name _)) = true
contains_read (RuntimeRead.fungibles (Read.token_symbol _)) = true
contains_read (RuntimeRead.fungibles (Read.token_decimals _)) = true
contains_read (RuntimeRead.fungibles (Read.token_exists _)) = true
