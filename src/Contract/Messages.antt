-- ===== src/Contract/Messages.antt =====
-- pop-api/examples/fungibles/lib.rs: the messages of the contract.
use pop_node.Prelude.{
  ℕ, List, Option, some, none, raise, pure, modify, ◌>>=◌, ◌>>◌, ◌==◌, if◌then◌else◌, ◌||◌, gets,
}
use pop_node.Prelude.Utf8.{from_utf8}
use pop_node.Frame.{AccountId, Balance}
use pop_node.Api.Codec.{Scale}
use pop_node.PopApi.Ink.{Ink}
use pop_node.PopApi.Events.{Event}
use pop_node.PopApi.Errors.{custom}
use pop_node.PopApi.Fungibles
use pop_node.Contract.{Message, not_the_owner, on_chain, or_default, emit, outside, token}

-- `.and_then(|v| String::from_utf8(v).ok())`
abbrev pub as_text : Option (List ℕ) → Option (List ℕ)
as_text none = none
as_text (some v) = from_utf8 v

module _ (c : Scale) (ink : Ink) where
  unfoldable pub total_supply : Message c ink Balance
  total_supply = do
    id ← token c ink
    outside c ink (or_default c ink (Fungibles.total_supply c ink id) 0)

  unfoldable pub balance_of : AccountId → Message c ink Balance
  balance_of owner = do
    id ← token c ink
    outside c ink (or_default c ink (Fungibles.balance_of c ink id owner) 0)

  unfoldable pub allowance : AccountId → AccountId → Message c ink Balance
  allowance owner spender = do
    id ← token c ink
    outside c ink (or_default c ink (Fungibles.allowance c ink id owner spender) 0)

  unfoldable pub token_name : Message c ink (Option (List ℕ))
  token_name = do
    id ← token c ink
    name ← outside c ink (or_default c ink (Fungibles.token_name c ink id) none)
    pure (as_text name)

  unfoldable pub token_symbol : Message c ink (Option (List ℕ))
  token_symbol = do
    id ← token c ink
    symbol ← outside c ink (or_default c ink (Fungibles.token_symbol c ink id) none)
    pure (as_text symbol)

  unfoldable pub token_decimals : Message c ink ℕ
  token_decimals = do
    id ← token c ink
    outside c ink (or_default c ink (Fungibles.token_decimals c ink id) 0)

  module _ (caller contract : AccountId) where
    unfoldable pub ensure_owner : Message c ink (Unit {0})
    ensure_owner = do
      owner ← gets (λ s. s.storage.owner)
      (if owner == caller then pure tt else raise (custom not_the_owner))

    -- What each message does where it is no no-op.
    unfoldable pub send_transfer : AccountId → Balance → Message c ink (Unit {0})
    send_transfer to value = do
      id ← token c ink
      outside c ink (on_chain c ink (Fungibles.transfer c ink id to value))
      outside c ink (emit c ink (Event.transfer (some contract) (some to) value))

    unfoldable pub transfer : AccountId → Balance → List ℕ → Message c ink (Unit {0})
    unfolding ensure_owner send_transfer
    transfer to value extra = do
      ensure_owner
      (if contract == to || value == 0 then pure tt else send_transfer to value)

    unfoldable pub send_transfer_from : AccountId → AccountId → Balance → Message c ink (Unit {0})
    unfolding allowance
    send_transfer_from from to value = do
      id ← token c ink
      outside c ink (on_chain c ink (Fungibles.transfer_from c ink id from to value))
      outside c ink (emit c ink (Event.transfer (some contract) (some to) value))
      left ← allowance from contract
      outside c ink (emit c ink (Event.approval from contract left))

    unfoldable pub transfer_from :
        AccountId → AccountId → Balance → List ℕ → Message c ink (Unit {0})
    unfolding ensure_owner send_transfer_from
    transfer_from from to value extra = do
      ensure_owner
      (if from == to || value == 0 then pure tt else send_transfer_from from to value)

    unfoldable pub send_approve : AccountId → Balance → Message c ink (Unit {0})
    send_approve spender value = do
      id ← token c ink
      outside c ink (on_chain c ink (Fungibles.approve c ink id spender value))
      outside c ink (emit c ink (Event.approval contract spender value))

    unfoldable pub approve : AccountId → Balance → Message c ink (Unit {0})
    unfolding ensure_owner send_approve
    approve spender value = do
      ensure_owner
      (if contract == spender then pure tt else send_approve spender value)

    unfoldable pub send_increase : AccountId → Balance → Message c ink (Unit {0})
    unfolding allowance
    send_increase spender value = do
      id ← token c ink
      outside c ink (on_chain c ink (Fungibles.increase_allowance c ink id spender value))
      allowed ← allowance contract spender
      outside c ink (emit c ink (Event.approval contract spender allowed))

    unfoldable pub increase_allowance : AccountId → Balance → Message c ink (Unit {0})
    unfolding ensure_owner send_increase
    increase_allowance spender value = do
      ensure_owner
      (if contract == spender || value == 0 then pure tt else send_increase spender value)

    unfoldable pub send_decrease : AccountId → Balance → Message c ink (Unit {0})
    unfolding allowance
    send_decrease spender value = do
      id ← token c ink
      outside c ink (on_chain c ink (Fungibles.decrease_allowance c ink id spender value))
      allowed ← allowance contract spender
      outside c ink (emit c ink (Event.approval contract spender allowed))

    unfoldable pub decrease_allowance : AccountId → Balance → Message c ink (Unit {0})
    unfolding ensure_owner send_decrease
    decrease_allowance spender value = do
      ensure_owner
      (if contract == spender || value == 0 then pure tt else send_decrease spender value)

    unfoldable pub send_mint : AccountId → Balance → Message c ink (Unit {0})
    send_mint account value = do
      id ← token c ink
      outside c ink (on_chain c ink (Fungibles.mint c ink id account value))
      outside c ink (emit c ink (Event.transfer none (some account) value))

    unfoldable pub mint : AccountId → Balance → Message c ink (Unit {0})
    unfolding ensure_owner send_mint
    mint account value = do ensure_owner; (if value == 0 then pure tt else send_mint account value)

    unfoldable pub send_burn : AccountId → Balance → Message c ink (Unit {0})
    send_burn account value = do
      id ← token c ink
      outside c ink (on_chain c ink (Fungibles.burn c ink id account value))
      outside c ink (emit c ink (Event.transfer (some account) none value))

    unfoldable pub burn : AccountId → Balance → Message c ink (Unit {0})
    unfolding ensure_owner send_burn
    burn account value = do ensure_owner; (if value == 0 then pure tt else send_burn account value)

    unfoldable pub transfer_ownership : AccountId → Message c ink (Unit {0})
    unfolding ensure_owner
    transfer_ownership owner = do
      ensure_owner
      modify (λ s. record s { storage = record s.storage { owner = owner } })
