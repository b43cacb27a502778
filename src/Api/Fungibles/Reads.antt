-- ===== src/Api/Fungibles/Reads.antt =====
-- pallets/api/src/fungibles/mod.rs: the state reads (`impl crate::Read for Pallet`).
use pop_node.Prelude.{ℕ, List, Option, some, none, is_empty, if◌then◌else◌}
use pop_node.Frame.{Weight}
use pop_node.Api.Codec.{Scale}
use pop_node.Api.Fungibles.Types.{Assets, WeightInfo, Read, ReadResult}

-- `Some(v).filter(|v| !v.is_empty())`
abbrev pub unless_empty : List ℕ → Option (List ℕ)
unless_empty v = if is_empty v then none else some v

-- `weight`
unfoldable pub weight : WeightInfo → Read → Weight
weight w (Read.total_supply _) = w.total_supply
weight w (Read.balance_of _ _) = w.balance_of
weight w (Read.allowance _ _ _) = w.allowance
weight w (Read.token_name _) = w.token_name
weight w (Read.token_symbol _) = w.token_symbol
weight w (Read.token_decimals _) = w.token_decimals
weight w (Read.token_exists _) = w.token_exists

-- `read`, in a state of pallet-assets
unfoldable pub read : (a : Assets) → Read → a.State → ReadResult
read a (Read.total_supply token) s = ReadResult.total_supply (a.total_supply s token)
read a (Read.balance_of token owner) s = ReadResult.balance_of (a.balance s token owner)
read a (Read.allowance token owner spender) s =
    ReadResult.allowance (a.allowance s token owner spender)
read a (Read.token_name token) s = ReadResult.token_name (unless_empty (a.name s token))
read a (Read.token_symbol token) s = ReadResult.token_symbol (unless_empty (a.symbol s token))
read a (Read.token_decimals token) s = ReadResult.token_decimals (a.decimals s token)
read a (Read.token_exists token) s = ReadResult.token_exists (a.asset_exists s token)

-- `ReadResult::encode`: the value alone, with no index of the variant.
unfoldable pub encode : Scale → ReadResult → List ℕ
encode c (ReadResult.total_supply v) = c.balance.encode v
encode c (ReadResult.balance_of v) = c.balance.encode v
encode c (ReadResult.allowance v) = c.balance.encode v
encode c (ReadResult.token_name v) = c.optional_bytes.encode v
encode c (ReadResult.token_symbol v) = c.optional_bytes.encode v
encode c (ReadResult.token_decimals v) = c.byte.encode v
encode c (ReadResult.token_exists v) = c.boolean.encode v
