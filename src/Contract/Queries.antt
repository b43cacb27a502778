-- ===== src/Contract/Queries.antt =====
-- pop-api/examples/fungibles/lib.rs: the messages of the contract that read.
use pop_node.Prelude.{◌>>=◌, pure}
use pop_node.Frame.{AccountId, TokenId}
use pop_node.Api.Codec.{Scale}
use pop_node.Api.Fungibles.Types.{Read, ReadResult}
use pop_node.PopApi.Ink.{Ink}
use pop_node.Contract.{Message}
use pop_node.Contract.Messages
use pop_node.Contract.Messages.{as_text}

-- The messages that take the contract by `&self`, with their arguments.
pub data Query : Type 0 where
  total_supply token_name token_symbol token_decimals : Query
  balance_of : (owner : AccountId) → Query
  allowance : (owner spender : AccountId) → Query

-- The read of the pallet that a query makes.
abbrev pub read_of : TokenId → Query → Read
read_of id Query.total_supply = Read.total_supply id
read_of id Query.token_name = Read.token_name id
read_of id Query.token_symbol = Read.token_symbol id
read_of id Query.token_decimals = Read.token_decimals id
read_of id (Query.balance_of owner) = Read.balance_of id owner
read_of id (Query.allowance owner spender) = Read.allowance id owner spender

-- A result of the pallet as the contract returns it: names as text, if they are.
abbrev pub as_returned : ReadResult → ReadResult
as_returned (ReadResult.token_name v) = ReadResult.token_name (as_text v)
as_returned (ReadResult.token_symbol v) = ReadResult.token_symbol (as_text v)
as_returned result = result

module _ (s : Scale) (ink : Ink) where
  -- The message, with the kind of its result.
  unfoldable pub consult : Query → Message s ink ReadResult
  consult Query.total_supply = do v ← Messages.total_supply s ink; pure (ReadResult.total_supply v)
  consult Query.token_name = do v ← Messages.token_name s ink; pure (ReadResult.token_name v)
  consult Query.token_symbol = do v ← Messages.token_symbol s ink; pure (ReadResult.token_symbol v)
  consult Query.token_decimals = do
    v ← Messages.token_decimals s ink
    pure (ReadResult.token_decimals v)
  consult (Query.balance_of owner) = do
    v ← Messages.balance_of s ink owner
    pure (ReadResult.balance_of v)
  consult (Query.allowance owner spender) = do
    v ← Messages.allowance s ink owner spender
    pure (ReadResult.allowance v)
