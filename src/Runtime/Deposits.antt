-- ===== src/Runtime/Deposits.antt =====
-- The deposits that the runtimes configure: runtime/devnet/src/config/contracts.rs and assets.rs (the
-- testnet's are the same), and `proxy` of runtime/common/src/lib.rs.
use pop_node.Prelude.{ℕ, ◌+◌, ◌*◌, ◌≡◌, arith}
use pop_node.Frame.{Balance}
use pop_node.Common.{deposit}

-- `DepositPerItem`
unfoldable pub deposit_per_item : Balance
deposit_per_item = deposit 1 0

-- `DepositPerByte`
unfoldable pub deposit_per_byte : Balance
deposit_per_byte = deposit 0 1

-- `DefaultDepositLimit`
unfoldable pub default_deposit_limit : Balance
default_deposit_limit = deposit 1024 (1024 * 1024)

-- `AssetAccountDeposit`
unfoldable pub asset_account_deposit : Balance
asset_account_deposit = deposit 1 16

-- `MetadataDepositBase`
unfoldable pub metadata_deposit_base : Balance
metadata_deposit_base = deposit 1 68

-- `MetadataDepositPerByte`
unfoldable pub metadata_deposit_per_byte : Balance
metadata_deposit_per_byte = deposit 0 1

-- `ProxyDepositBase`
unfoldable pub proxy_deposit_base : Balance
proxy_deposit_base = deposit 1 40

-- `ProxyDepositFactor`
unfoldable pub proxy_deposit_factor : Balance
proxy_deposit_factor = deposit 0 33

-- `AnnouncementDepositBase`
unfoldable pub announcement_deposit_base : Balance
announcement_deposit_base = deposit 1 48

-- `AnnouncementDepositFactor`
unfoldable pub announcement_deposit_factor : Balance
announcement_deposit_factor = deposit 0 66

-- Deposits that are charged piece by piece lose nothing to rounding: what a contract pays for its
-- items and bytes is the deposit for all of them, and exactly the default limit for 1024 items and a
-- MiB; and metadata, proxies and announcements cost what one item of their size in bytes does.
pub deposits-add :
    (items bytes : ℕ)
    → (items * deposit_per_item + bytes * deposit_per_byte ≡ deposit items bytes)
      × (1024 * deposit_per_item + 1024 * 1024 * deposit_per_byte ≡ default_deposit_limit)
      × (metadata_deposit_base + bytes * metadata_deposit_per_byte ≡ deposit 1 (68 + bytes))
      × (proxy_deposit_base + items * proxy_deposit_factor ≡ deposit 1 (40 + 33 * items))
      × (announcement_deposit_base + items * announcement_deposit_factor
          ≡ deposit 1 (48 + 66 * items))
unfolding deposit deposit_per_item deposit_per_byte default_deposit_limit metadata_deposit_base
    metadata_deposit_per_byte proxy_deposit_base proxy_deposit_factor announcement_deposit_base
    announcement_deposit_factor
deposits-add items bytes = (omega arith, omega arith, omega arith, omega arith, omega arith)
