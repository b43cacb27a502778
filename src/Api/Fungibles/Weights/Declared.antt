-- ===== src/Api/Fungibles/Weights/Declared.antt =====
-- The weights that are declared for the functions (pallets/api/src/fungibles/mod.rs, the attributes
-- `pallet::weight`), and what the functions say that they used against them.
use pop_node.Prelude.{
  ℕ, ltb, arith, length, Result-cases, Bool-cases, inl, inr, some, none, ◌>>◌, pure,
}
use pop_node.Frame.{Weight, add_weight, AccountId, TokenId, Balance}
use pop_node.Api.Fungibles.Types.{Assets, WeightInfo, Call}
use pop_node.Api.Fungibles.State.{State, Dispatch, no_weight}
use pop_node.Api.Fungibles.Calls
use pop_node.Api.Fungibles.Dispatch.{dispatch}
use pop_node.Api.Fungibles.Weights.{
  ApproveWeighs, AtMost, used, approve-AtMost, decrease_allowance-AtMost,
}

-- `AssetsWeightInfoOf<T>`: the weights of pallet-assets.
pub record AssetsWeightInfo : Type 0 where
  pub transfer_keep_alive : Weight
  pub transfer_approved : Weight
  pub create : Weight
  pub start_destroy : Weight
  pub set_metadata : ℕ → ℕ → Weight
  pub clear_metadata : Weight
  pub mint : Weight
  pub burn : Weight

-- The attributes `pallet::weight`.
unfoldable pub declared : AssetsWeightInfo → WeightInfo → Call → Weight
declared assets w (Call.transfer token to value) = assets.transfer_keep_alive
declared assets w (Call.transfer_from token from to value) = assets.transfer_approved
declared assets w (Call.approve token spender value) = w.approve 1 1
declared assets w (Call.increase_allowance token spender value) = w.approve 1 0
declared assets w (Call.decrease_allowance token spender value) = w.approve 1 1
declared assets w (Call.create id admin min_balance) = assets.create
declared assets w (Call.start_destroy token) = assets.start_destroy
declared assets w (Call.set_metadata token name symbol decimals) =
    assets.set_metadata (length name) (length symbol)
declared assets w (Call.clear_metadata token) = assets.clear_metadata
declared assets w (Call.mint token account value) = assets.mint
declared assets w (Call.burn token account value) = add_weight w.balance_of assets.burn

module _ (assets : AssetsWeightInfo) (a : Assets) (w : WeightInfo) where
  plain-AtMost :
      (limit : Weight) (m : Dispatch a) (s : State a)
      → AtMost limit (used ((no_weight a m >> pure none) s).0)
  plain-AtMost limit m s = elim (Result-cases (m s).0) [
    | inl (u, p) ↦ rw p tt
    | inr (x, p) ↦ rw p tt
  ]

  burn-AtMost :
      (o : a.Origin) (t : TokenId) (who : AccountId) (v : Balance) (s : State a)
      → AtMost (add_weight w.balance_of assets.burn) (used (Calls.burn a w o t who v s).0)
  unfolding Calls.burn
  burn-AtMost o t who v s = elim (Bool-cases (ltb (a.balance s.assets t who) v)) [
    | inl low ↦ rw (low, Calls.burn) (omega arith)
    | inr enough ↦ elim (Result-cases (a.burn o t who v s.assets).0) [
      | inl (u, p) ↦ rw (enough, p, Calls.burn) tt
      | inr (x, p) ↦ rw (enough, p, Calls.burn) tt
    ]
  ]

  module _ (none_of : AtMost (w.approve 1 0) (some (w.approve 0 0)))
      (one_of : AtMost (w.approve 1 0) (some w.assets_approve_transfer)) where
    increase_allowance-AtMost :
        (o : a.Origin) (t : TokenId) (d : AccountId) (v : Balance) (s : State a)
        → AtMost (w.approve 1 0) (used (Calls.increase_allowance a w o t d v s).0)
    unfolding Calls.increase_allowance
    increase_allowance-AtMost o t d v s = elim (Result-cases (a.ensure_signed o)) [
      | inr (x, p) ↦ rw (p, Calls.increase_allowance) none_of
      | inl (owner, p) ↦ elim (Result-cases (a.approve_transfer o t d v s.assets).0) [
        | inl (u, q) ↦ rw (p, q, Calls.increase_allowance) tt
        | inr (x, q) ↦ rw (p, q, Calls.increase_allowance) one_of
      ]
    ]

    -- No function, successful or not, says that it used more than the weight that is declared for it,
    -- where fewer approvals do not weigh more, nor one of pallet-assets more than one of this pallet.
    pub dispatch-AtMost :
        (laws : ApproveWeighs w) (o : a.Origin) (x : Call) (s : State a)
        → AtMost (declared assets w x) (used (dispatch a w o x s).0)
    unfolding dispatch declared
    dispatch-AtMost laws o (Call.transfer token to value) s =
        plain-AtMost assets.transfer_keep_alive (Calls.transfer a o token to value) s
    dispatch-AtMost laws o (Call.transfer_from token from to value) s =
        plain-AtMost assets.transfer_approved (Calls.transfer_from a o token from to value) s
    dispatch-AtMost laws o (Call.approve t d v) s = approve-AtMost a w laws o t d v s
    dispatch-AtMost laws o (Call.increase_allowance t d v) s = increase_allowance-AtMost o t d v s
    dispatch-AtMost laws o (Call.decrease_allowance t d v) s =
        decrease_allowance-AtMost a w laws o t d v s
    dispatch-AtMost laws o (Call.create id admin min_balance) s =
        plain-AtMost assets.create (Calls.create a o id admin min_balance) s
    dispatch-AtMost laws o (Call.start_destroy token) s =
        plain-AtMost assets.start_destroy (Calls.start_destroy a o token) s
    dispatch-AtMost laws o (Call.set_metadata token name symbol decimals) s =
        plain-AtMost (assets.set_metadata (length name) (length symbol))
          (Calls.set_metadata a o token name symbol decimals) s
    dispatch-AtMost laws o (Call.clear_metadata token) s =
        plain-AtMost assets.clear_metadata (Calls.clear_metadata a o token) s
    dispatch-AtMost laws o (Call.mint token account value) s =
        plain-AtMost assets.mint (Calls.mint a o token account value) s
    dispatch-AtMost laws o (Call.burn t who v) s = burn-AtMost o t who v s
