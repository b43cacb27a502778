-- ===== src/Api/Fungibles/Codec.antt =====
-- The SCALE decoders of the pallet's calls and reads (pallets/api/src/fungibles/mod.rs): a variant is
-- its index byte (`call_index`, `codec(index)`), then its fields in order.
use pop_node.Prelude.{ℕ, ◌==◌, if◌then◌else◌, [], ◌∷◌, none}
use pop_node.Frame.{AccountId, TokenId, Balance}
use pop_node.Api.Codec.{Reader, pure, ◌>>=◌, Scale}
use pop_node.Api.Fungibles.Types.{Call, Read}

-- A variant that has no such index is refused.
abbrev pub invalid : {A : Type 0} → Reader A
invalid bytes = none

-- The index byte.
abbrev pub index : Reader ℕ
index [] = none
index (b ∷ rest) = pure b rest

module _ (c : Scale) where
  -- The fields of a call, by their types.
  abbrev pub token_fields : {A : Type 0} → (TokenId → A) → Reader A
  token_fields make = do token ← c.token.decode; pure (make token)

  abbrev pub amount_fields : {A : Type 0} → (TokenId → AccountId → Balance → A) → Reader A
  amount_fields make = do
    token ← c.token.decode
    account ← c.account.decode
    value ← c.balance.decode
    pure (make token account value)

  abbrev pub transfer_from_fields : Reader Call
  transfer_from_fields = do
    token ← c.token.decode
    from ← c.account.decode
    to ← c.account.decode
    value ← c.balance.decode
    pure (Call.transfer_from token from to value)

  abbrev pub metadata_fields : Reader Call
  metadata_fields = do
    token ← c.token.decode
    name ← c.bytes.decode
    symbol ← c.bytes.decode
    decimals ← c.byte.decode
    pure (Call.set_metadata token name symbol decimals)

  abbrev pub owner_fields : Reader Read
  owner_fields = do
    token ← c.token.decode
    owner ← c.account.decode
    pure (Read.balance_of token owner)

  abbrev pub allowance_fields : Reader Read
  allowance_fields = do
    token ← c.token.decode
    owner ← c.account.decode
    spender ← c.account.decode
    pure (Read.allowance token owner spender)

  -- The fields of the call with an index.
  unfoldable pub call_fields : ℕ → Reader Call
  call_fields i =
      if i == 3
      then amount_fields Call.transfer
      else if i == 4
      then transfer_from_fields
      else if i == 5
      then amount_fields Call.approve
      else if i == 6
      then amount_fields Call.increase_allowance
      else if i == 7
      then amount_fields Call.decrease_allowance
      else if i == 11
      then amount_fields Call.create
      else if i == 12
      then token_fields Call.start_destroy
      else if i == 16
      then metadata_fields
      else if i == 17
      then token_fields Call.clear_metadata
      else if i == 19
      then amount_fields Call.mint
      else if i == 20
      then amount_fields Call.burn
      else invalid

  -- `Call::decode`
  unfoldable pub decode_call : Reader Call
  unfolding call_fields
  decode_call = do i ← index; call_fields i

  -- The fields of the read with an index.
  unfoldable pub read_fields : ℕ → Reader Read
  read_fields i =
      if i == 0
      then token_fields Read.total_supply
      else if i == 1
      then owner_fields
      else if i == 2
      then allowance_fields
      else if i == 8
      then token_fields Read.token_name
      else if i == 9
      then token_fields Read.token_symbol
      else if i == 10
      then token_fields Read.token_decimals
      else if i == 18
      then token_fields Read.token_exists
      else invalid

  -- `Read::decode`
  unfoldable pub decode_read : Reader Read
  unfolding read_fields
  decode_read = do i ← index; read_fields i
