-- ===== src/Api/Fungibles/Calls.antt =====
-- pallets/api/src/fungibles/mod.rs: the dispatchable functions.
use Prim.Native.Nat.{compare, Ordering}
use pop_node.Prelude.{
  ok_or, ensure, not, ℕ, ◌-◌, ◌==◌, ltb, leb, if◌then◌else◌, List, Option, some, none, lift, gets,
  pure, ◌>>=◌, ◌>>◌,
}
use pop_node.Frame.{AccountId, TokenId, Balance, Weight}
use pop_node.Api.Fungibles.Types.{Assets, WeightInfo, Event}
use pop_node.Api.Fungibles.State.{
  Dispatch, DispatchWithPostInfo, on_assets, deposit_event, with_weight, no_weight,
}

-- `checked_sub`
abbrev pub checked_sub : ℕ → ℕ → Option ℕ
checked_sub x y = if leb y x then some (x - y) else none

module _ (a : Assets) where
  unfoldable pub transfer : a.Origin → TokenId → AccountId → Balance → Dispatch a
  transfer origin token to value = do
    from ← lift (a.ensure_signed origin)
    on_assets a (a.transfer_keep_alive origin token to value)
    deposit_event a (Event.transfer token (some from) (some to) value)

  unfoldable pub transfer_from : a.Origin → TokenId → AccountId → AccountId → Balance → Dispatch a
  transfer_from origin token from to value = do
    on_assets a (a.transfer_approved origin token from to value)
    deposit_event a (Event.transfer token (some from) (some to) value)

  unfoldable pub create : a.Origin → TokenId → AccountId → Balance → Dispatch a
  create origin id admin min_balance = do
    creator ← lift (a.ensure_signed origin)
    on_assets a (a.create origin id admin min_balance)
    deposit_event a (Event.created id creator admin)

  unfoldable pub start_destroy : a.Origin → TokenId → Dispatch a
  start_destroy origin token = on_assets a (a.start_destroy origin token)

  unfoldable pub set_metadata : a.Origin → TokenId → List ℕ → List ℕ → ℕ → Dispatch a
  set_metadata origin token name symbol decimals =
      on_assets a (a.set_metadata origin token name symbol decimals)

  unfoldable pub clear_metadata : a.Origin → TokenId → Dispatch a
  clear_metadata origin token = on_assets a (a.clear_metadata origin token)

  unfoldable pub mint : a.Origin → TokenId → AccountId → Balance → Dispatch a
  mint origin token account value = do
    on_assets a (a.mint origin token account value)
    deposit_event a (Event.transfer token none (some account) value)

  module _ (w : WeightInfo) where
    -- The `Greater` branch of `approve`: `approve_transfer` adds, so the difference is approved.
    unfoldable pub approve_greater :
        a.Origin → TokenId → AccountId → Balance → Balance → DispatchWithPostInfo a Weight
    approve_greater origin token spender value current = do
      with_weight a (w.approve 1 0)
          (on_assets a (a.approve_transfer origin token spender (value - current)))
      pure (w.approve 1 0)

    -- The end of the `Less` branch: the approval has been cancelled.
    unfoldable pub approve_anew :
        a.Origin → TokenId → AccountId → Balance → DispatchWithPostInfo a Weight
    approve_anew origin token spender value = if value == 0 then pure (w.approve 0 1) else do
      no_weight a (on_assets a (a.approve_transfer origin token spender value))
      pure (w.approve 1 1)

    -- The `Less` branch.
    unfoldable pub approve_less :
        a.Origin → TokenId → AccountId → Balance → DispatchWithPostInfo a Weight
    approve_less origin token spender value = do
      with_weight a (w.approve 0 1) (on_assets a (a.cancel_approval origin token spender))
      approve_anew origin token spender value

    -- `match value.cmp(&current_allowance)`
    unfoldable pub set_allowance :
        a.Origin → TokenId → AccountId → Balance → Balance → DispatchWithPostInfo a Weight
    set_allowance origin token spender value current = elim (compare value current) [
      | Ordering.eq ↦ pure (w.approve 0 0)
      | Ordering.gt ↦ approve_greater origin token spender value current
      | Ordering.lt ↦ approve_less origin token spender value
    ]

    unfoldable pub approve :
        a.Origin → TokenId → AccountId → Balance → DispatchWithPostInfo a (Option Weight)
    approve origin token spender value = do
      owner ← with_weight a (w.approve 0 0) (lift (a.ensure_signed origin))
      current ← gets (λ s. a.allowance s.assets token owner spender)
      weight ← set_allowance origin token spender value current
      deposit_event a (Event.approval token owner spender value)
      pure (some weight)

    unfoldable pub increase_allowance :
        a.Origin → TokenId → AccountId → Balance → DispatchWithPostInfo a (Option Weight)
    increase_allowance origin token spender value = do
      owner ← with_weight a (w.approve 0 0) (lift (a.ensure_signed origin))
      with_weight a w.assets_approve_transfer
          (on_assets a (a.approve_transfer origin token spender value))
      value ← gets (λ s. a.allowance s.assets token owner spender)
      deposit_event a (Event.approval token owner spender value)
      pure none

    -- What `decrease_allowance` does once it knows that the new allowance is not negative.
    unfoldable pub lower_allowance :
        a.Origin
        → TokenId
        → AccountId
        → AccountId
        → Balance
        → DispatchWithPostInfo a (Option Weight)
    unfolding approve_less approve_anew
    lower_allowance origin token owner spender new_allowance = do
      weight ← approve_less origin token spender new_allowance
      deposit_event a (Event.approval token owner spender new_allowance)
      pure (some weight)

    -- `decrease_allowance` by more than zero: `checked_sub` fails where it would go below zero.
    unfoldable pub decrease_by :
        a.Origin
        → TokenId
        → AccountId
        → AccountId
        → Balance
        → DispatchWithPostInfo a (Option Weight)
    decrease_by origin token owner spender value = do
      current ← gets (λ s. a.allowance s.assets token owner spender)
      new_allowance ← no_weight a (lift (ok_or (checked_sub current value) a.unapproved))
      lower_allowance origin token owner spender new_allowance

    unfoldable pub decrease_allowance :
        a.Origin → TokenId → AccountId → Balance → DispatchWithPostInfo a (Option Weight)
    decrease_allowance origin token spender value = do
      owner ← with_weight a (w.approve 0 0) (lift (a.ensure_signed origin))
      (if value == 0
          then pure (some (w.approve 0 0))
          else decrease_by origin token owner spender value)

    unfoldable pub burn :
        a.Origin → TokenId → AccountId → Balance → DispatchWithPostInfo a (Option Weight)
    burn origin token account value = do
      current ← gets (λ s. a.balance s.assets token account)
      with_weight a w.balance_of (ensure (not (ltb current value)) a.balance_low)
      no_weight a (on_assets a (a.burn origin token account value))
      deposit_event a (Event.transfer token (some account) none value)
      pure none
