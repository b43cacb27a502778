-- ===== src/Examples/Errors.antt =====
-- Status codes (primitives/src/lib.rs, pop-api/src), proxies and deposits (runtime/common/src/lib.rs).
use pop_node.Prelude.{some, ◌≡◌, refl, arith, true}
use pop_node.Primitives.{Error, to_u32, from_u32, decode}
use pop_node.Primitives.StatusCode.{from_u32-to_u32}
use pop_node.PopApi.{into_error}
use pop_node.PopApi.Errors.{into_u32, psp22_error, into_u32-psp22_error}
use pop_node.Runtime.Proxy.{ProxiedCall, filter, mainnet_filter}
use pop_node.Runtime.Proxies.{is_superset-filter}
use pop_node.Common.{ProxyType, is_superset}

abbrev balance_low : Error
balance_low = Error.module_error 52 0 0

from_u32-to_u32_example : from_u32 (to_u32 balance_low) ≡ balance_low
from_u32-to_u32_example = from_u32-to_u32 balance_low (omega arith, omega arith, omega arith)

-- `DECODING_FAILED` of pop-api is no `DecodingFailed` of primitives.
decoding_failed_of_the_library : into_error 255 ≡ Error.unknown 0 0 0
unfolding into_error from_u32 decode
decoding_failed_of_the_library = refl

above_owner : is_superset ProxyType.assets ProxyType.asset_owner ≡ true
unfolding is_superset
above_owner = refl

is_superset-filter_example :
    (filter ProxyType.asset_owner ProxiedCall.utility ≡ true
      → filter ProxyType.assets ProxiedCall.utility ≡ true)
    × (mainnet_filter ProxyType.asset_owner ProxiedCall.utility ≡ true
        → mainnet_filter ProxyType.assets ProxiedCall.utility ≡ true)
is_superset-filter_example =
    is_superset-filter ProxyType.assets ProxyType.asset_owner ProxiedCall.utility above_owner

-- `BalanceLow` of pallet-assets.
into_u32-psp22_error_example : into_u32 (psp22_error 13315) ≡ some 13315
into_u32-psp22_error_example = into_u32-psp22_error 13315 (omega arith)
