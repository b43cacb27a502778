-- ===== src/Api/Fungibles/Running/Preserving.antt =====
-- The functions of the pallet preserve what their parts do (pallets/api/src/fungibles/mod.rs).
use mathlib.Core.Path.{subst}
use pop_node.Prelude.{
  Option, ◌>>◌, ltb, Result-cases, arith, map_err, ok_or, ◌-◌, pure, lift, gets, ◌>>=◌, >>=-eq-ok,
  Result, ◌≡◌, inl, inr, ap, ◌==◌, Bool-cases, none, some, ok, err, Exec,
}
use pop_node.Frame.{AccountId, TokenId, Balance, Weight, DispatchError}
use pop_node.Api.Fungibles.Types.{Assets, WeightInfo, Event, ErrorWithPostInfo}
use pop_node.Api.Fungibles.State.{State, on_assets, deposit_event, with_weight, no_weight}
use pop_node.Api.Fungibles.Calls
use pop_node.Api.Fungibles.Allowance.{compare-cases}
use pop_node.Api.Fungibles.Running.{Sustains}

map_err-eq-ok :
    {E F A : Type 0} (f : E → F) (r : Result E A) {v : A} → map_err f r ≡ ok v → r ≡ ok v
map_err-eq-ok f (ok x) h = cc
map_err-eq-ok f (err e) h = cc

module _ (a : Assets) (Good : State a → Type 0) where
  -- Where it succeeds, the predicate still holds.
  unfoldable pub Preserves : {E A : Type 0} → Exec E (State a) A → Type 0
  Preserves {A = A} m = (s : State a) (r : A) → Good s → (m s).0 ≡ ok r → Good (m s).1

  bind-Preserves :
      {E A B : Type 0} (m : Exec E (State a) A) (f : A → Exec E (State a) B)
      → Preserves m
      → ((x : A) → Preserves (f x))
      → Preserves (m >>= f)
  unfolding Preserves
  bind-Preserves m f first rest s r good h =
      let (x, p, q) = >>=-eq-ok m f s (λ i. (h i, ((m >>= f) s).1)) in
      subst Good (ap (λ y. y.1) q) (rest x (m s).1 r (first s x good p) (ap (λ y. y.0) q))

  module _ (E : Type 0) where
    gets-Preserves : {A : Type 0} (f : State a → A) → Preserves {E = E} (gets f)
    unfolding Preserves
    gets-Preserves f s r good h = good

    pure-Preserves : {A : Type 0} (x : A) → Preserves {E = E} (pure x)
    unfolding Preserves
    pure-Preserves x s r good h = good

  lift-Preserves : {E A : Type 0} (r : Result E A) → Preserves (lift r)
  unfolding Preserves
  lift-Preserves x s r good h = good

  with_weight-Preserves :
      {A : Type 0} (x : Weight) (m : Exec DispatchError (State a) A)
      → Preserves m
      → Preserves (with_weight a x m)
  unfolding Preserves
  with_weight-Preserves x m first s r good h = first s r good (map_err-eq-ok _ (m s).0 h)

  no_weight-Preserves :
      {A : Type 0} (m : Exec DispatchError (State a) A) → Preserves m → Preserves (no_weight a m)
  unfolding Preserves
  no_weight-Preserves m first s r good h = first s r good (map_err-eq-ok _ (m s).0 h)

  -- A `DispatchResult` in the place of a `DispatchResultWithPostInfo`.
  pub plain-Preserves :
      (m : Exec DispatchError (State a) (Unit {0}))
      → Preserves m
      → Preserves {A = Option Weight} (no_weight a m >> pure none)
  plain-Preserves m first =
      bind-Preserves _ _ (no_weight-Preserves m first) (λ _. pure-Preserves _ none)

  module _ (w : WeightInfo) (From : a.Origin → Type 0) (keeps : Sustains a From Good) (o : a.Origin)
      (may : From o) (t : TokenId) where
    approve_transfer-Preserves :
        (d : AccountId) (v : Balance) → Preserves (on_assets a (a.approve_transfer o t d v))
    unfolding Preserves
    approve_transfer-Preserves d v s r good h = keeps.approve o t d v s may good h

    cancel_approval-Preserves : (d : AccountId) → Preserves (on_assets a (a.cancel_approval o t d))
    unfolding Preserves
    cancel_approval-Preserves d s r good h = keeps.cancel o t d s may good h

    approval-Preserves :
        (owner d : AccountId) (v : Balance)
        → Preserves {E = ErrorWithPostInfo} (deposit_event a (Event.approval t owner d v))
    unfolding Preserves
    approval-Preserves owner d v s r good h = keeps.approval t owner d v s good

    approve_anew-Preserves :
        (d : AccountId) (v : Balance) → Preserves (Calls.approve_anew a w o t d v)
    unfolding Calls.approve_anew
    approve_anew-Preserves d v = elim (Bool-cases (v == 0)) [
      | inl z ↦ rw z (pure-Preserves _ (w.approve 0 1))
      | inr z ↦ rw z (
          bind-Preserves _ _ (no_weight-Preserves _ (approve_transfer-Preserves d v))
            (λ _. pure-Preserves _ (w.approve 1 1)))
    ]

    approve_less-Preserves :
        (d : AccountId) (v : Balance) → Preserves (Calls.approve_less a w o t d v)
    unfolding Calls.approve_less
    approve_less-Preserves d v =
        bind-Preserves _ _ (with_weight-Preserves _ _ (cancel_approval-Preserves d))
          (λ _. approve_anew-Preserves d v)

    set_allowance-Preserves :
        (d : AccountId) (v c : Balance) → Preserves (Calls.set_allowance a w o t d v c)
    unfolding Calls.set_allowance Calls.approve_greater
    set_allowance-Preserves d v c = elim (compare-cases v c) [
      | inl (e, _) ↦ rw (e, Calls.set_allowance) (pure-Preserves _ (w.approve 0 0))
      | inr (inl (e, _)) ↦
          rw (e, Calls.set_allowance)
            (bind-Preserves _ _ (with_weight-Preserves _ _ (approve_transfer-Preserves d (v - c)))
              (λ _. pure-Preserves _ (w.approve 1 0)))
      | inr (inr e) ↦ rw (e, Calls.set_allowance) (approve_less-Preserves d v)
    ]

    pub approve-Preserves : (d : AccountId) (v : Balance) → Preserves (Calls.approve a w o t d v)
    unfolding Calls.approve
    approve-Preserves d v =
        bind-Preserves _ _ (with_weight-Preserves _ _ (lift-Preserves (a.ensure_signed o))) λ owner.
          bind-Preserves _ _ (gets-Preserves _ (λ s. a.allowance s.assets t owner d)) λ current.
            bind-Preserves _ _ (set_allowance-Preserves d v current) λ weight.
              bind-Preserves _ _ (approval-Preserves owner d v)
                (λ _. pure-Preserves _ (some weight))

    pub increase_allowance-Preserves :
        (d : AccountId) (v : Balance) → Preserves (Calls.increase_allowance a w o t d v)
    unfolding Calls.increase_allowance
    increase_allowance-Preserves d v =
        bind-Preserves _ _ (with_weight-Preserves _ _ (lift-Preserves (a.ensure_signed o))) λ owner.
          bind-Preserves _ _ (with_weight-Preserves _ _ (approve_transfer-Preserves d v)) λ _.
            bind-Preserves _ _ (gets-Preserves _ (λ s. a.allowance s.assets t owner d)) λ current.
              bind-Preserves _ _ (approval-Preserves owner d current) (λ _. pure-Preserves _ none)

    lower_allowance-Preserves :
        (owner d : AccountId) (v : Balance) → Preserves (Calls.lower_allowance a w o t owner d v)
    unfolding Calls.lower_allowance
    lower_allowance-Preserves owner d v = bind-Preserves _ _ (approve_less-Preserves d v) λ weight.
        bind-Preserves _ _ (approval-Preserves owner d v) (λ _. pure-Preserves _ (some weight))

    decrease_by-Preserves :
        (owner d : AccountId) (v : Balance) → Preserves (Calls.decrease_by a w o t owner d v)
    unfolding Calls.decrease_by
    decrease_by-Preserves owner d v =
        bind-Preserves _ _ (gets-Preserves _ (λ s. a.allowance s.assets t owner d)) λ current.
          bind-Preserves _ _
            (no_weight-Preserves _
              (lift-Preserves (ok_or (Calls.checked_sub current v) a.unapproved)))
            (λ lowered. lower_allowance-Preserves owner d lowered)

    pub decrease_allowance-Preserves :
        (d : AccountId) (v : Balance) → Preserves (Calls.decrease_allowance a w o t d v)
    unfolding Calls.decrease_allowance
    decrease_allowance-Preserves d v =
        bind-Preserves _ _ (with_weight-Preserves _ _ (lift-Preserves (a.ensure_signed o))) λ owner.
          elim (Bool-cases (v == 0)) [
            | inl z ↦ rw z (pure-Preserves _ (some (w.approve 0 0)))
            | inr z ↦ rw z (decrease_by-Preserves owner d v)
          ]

    pub transfer-Preserves : (to : AccountId) (v : Balance) → Preserves (Calls.transfer a o t to v)
    unfolding Preserves Calls.transfer
    transfer-Preserves to v s r good h = elim (Result-cases (a.ensure_signed o)) [
      | inr (e, p) ↦ ground (arith, p)
      | inl (from, p) ↦ elim (Result-cases (a.transfer_keep_alive o t to v s.assets).0) [
        | inr (e, q) ↦ ground (arith, p, q)
        | inl (_, q) ↦ rw (p, q) (keeps.transfer o from t to v s may good p q)
      ]
    ]

    pub transfer_from-Preserves :
        (from to : AccountId) (v : Balance) → Preserves (Calls.transfer_from a o t from to v)
    unfolding Preserves Calls.transfer_from
    transfer_from-Preserves from to v s r good h =
        elim (Result-cases (a.transfer_approved o t from to v s.assets).0) [
          | inr (e, q) ↦ ground (arith, q)
          | inl (_, q) ↦ rw q (keeps.transfer_from o t from to v s may good q)
        ]

    pub create-Preserves :
        (admin : AccountId) (m : Balance) → Preserves (Calls.create a o t admin m)
    unfolding Preserves Calls.create
    create-Preserves admin m s r good h = elim (Result-cases (a.ensure_signed o)) [
      | inr (e, p) ↦ ground (arith, p)
      | inl (creator, p) ↦ elim (Result-cases (a.create o t admin m s.assets).0) [
        | inr (e, q) ↦ ground (arith, p, q)
        | inl (_, q) ↦ rw (p, q) (keeps.create o creator t admin m s may good q)
      ]
    ]

    pub mint-Preserves : (who : AccountId) (v : Balance) → Preserves (Calls.mint a o t who v)
    unfolding Preserves Calls.mint
    mint-Preserves who v s r good h = elim (Result-cases (a.mint o t who v s.assets).0) [
      | inr (e, q) ↦ ground (arith, q)
      | inl (_, q) ↦ rw q (keeps.mint o t who v s may good q)
    ]

    pub burn-Preserves : (who : AccountId) (v : Balance) → Preserves (Calls.burn a w o t who v)
    unfolding Preserves Calls.burn
    burn-Preserves who v s r good h = elim (Bool-cases (ltb (a.balance s.assets t who) v)) [
      | inl low ↦ ground (arith, low)
      | inr covered ↦ elim (Result-cases (a.burn o t who v s.assets).0) [
        | inr (e, q) ↦ ground (arith, covered, q)
        | inl (_, q) ↦ rw (covered, q) (keeps.burn o t who v s may good (ground (arith, covered)) q)
      ]
    ]
