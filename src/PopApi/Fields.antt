-- ===== src/PopApi/Fields.antt =====
-- The fields of calls and reads, read back (pallets/api/src/fungibles/mod.rs).
use pop_node.Prelude.{ℕ, ◌≡◌, ◌∙◌, List, ◌++◌, [], some}
use pop_node.Frame.{AccountId, TokenId, Balance}
use pop_node.Api.Codec.{Scale, read_next, read_last}
use pop_node.Api.Fungibles.Types.{Call, Read}
use pop_node.Api.Fungibles.Codec.{
  token_fields, amount_fields, transfer_from_fields, metadata_fields, owner_fields,
  allowance_fields,
}

module _ (c : Scale) where
  pub token_fields-decode :
      {A : Type 0} (make : TokenId → A) (t : TokenId)
      → c.token.InRange t
      → token_fields c make (c.token.encode t) ≡ some (make t, [])
  token_fields-decode make t ht = read_last c.token _ t ht

  pub amount_fields-decode :
      {A : Type 0} (make : TokenId → AccountId → Balance → A) (t : TokenId) (who : AccountId)
      (v : Balance)
      → c.token.InRange t
      → c.account.InRange who
      → c.balance.InRange v
      → amount_fields c make (c.token.encode t ++ (c.account.encode who ++ c.balance.encode v))
        ≡ some (make t who v, [])
  amount_fields-decode make t who v ht hw hv =
      read_next c.token _ t (c.account.encode who ++ c.balance.encode v) ht
      ∙ read_next c.account _ who (c.balance.encode v) hw
      ∙ read_last c.balance _ v hv

  pub transfer_from_fields-decode :
      (t : TokenId) (from to : AccountId) (v : Balance)
      → c.token.InRange t
      → c.account.InRange from
      → c.account.InRange to
      → c.balance.InRange v
      → transfer_from_fields c (
          c.token.encode t
          ++ (c.account.encode from ++ (c.account.encode to ++ c.balance.encode v)))
        ≡ some (Call.transfer_from t from to v, [])
  transfer_from_fields-decode t from to v ht hf hd hv =
      read_next c.token _ t (c.account.encode from ++ (c.account.encode to ++ c.balance.encode v))
        ht
      ∙ read_next c.account _ from (c.account.encode to ++ c.balance.encode v) hf
      ∙ read_next c.account _ to (c.balance.encode v) hd
      ∙ read_last c.balance _ v hv

  pub metadata_fields-decode :
      (t : TokenId) (name symbol : List ℕ) (d : ℕ)
      → c.token.InRange t
      → c.bytes.InRange name
      → c.bytes.InRange symbol
      → c.byte.InRange d
      → metadata_fields c
          (c.token.encode t ++ (c.bytes.encode name ++ (c.bytes.encode symbol ++ c.byte.encode d)))
        ≡ some (Call.set_metadata t name symbol d, [])
  metadata_fields-decode t name symbol d ht hn hs hd =
      read_next c.token _ t (c.bytes.encode name ++ (c.bytes.encode symbol ++ c.byte.encode d)) ht
      ∙ read_next c.bytes _ name (c.bytes.encode symbol ++ c.byte.encode d) hn
      ∙ read_next c.bytes _ symbol (c.byte.encode d) hs
      ∙ read_last c.byte _ d hd

  pub owner_fields-decode :
      (t : TokenId) (owner : AccountId)
      → c.token.InRange t
      → c.account.InRange owner
      → owner_fields c (c.token.encode t ++ c.account.encode owner)
        ≡ some (Read.balance_of t owner, [])
  owner_fields-decode t owner ht ho =
      read_next c.token _ t (c.account.encode owner) ht ∙ read_last c.account _ owner ho

  pub allowance_fields-decode :
      (t : TokenId) (owner spender : AccountId)
      → c.token.InRange t
      → c.account.InRange owner
      → c.account.InRange spender
      → allowance_fields c
          (c.token.encode t ++ (c.account.encode owner ++ c.account.encode spender))
        ≡ some (Read.allowance t owner spender, [])
  allowance_fields-decode t owner spender ht ho hs =
      read_next c.token _ t (c.account.encode owner ++ c.account.encode spender) ht
      ∙ read_next c.account _ owner (c.account.encode spender) ho
      ∙ read_last c.account _ spender hs
