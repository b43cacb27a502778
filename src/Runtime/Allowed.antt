-- ===== src/Runtime/Allowed.antt =====
-- What the chain extension of the runtime lets a contract do (runtime/devnet/src/config/api/mod.rs).
use pop_node.Prelude.{
  ◌≡◌, refl, ◌∙◌, ◌↔◌, ◌==◌, ==_iff, true, false, Bool-cases, inl, inr, ok, Result-cases,
}
use pop_node.Extension.{call}
use pop_node.Extension.Environment.{Environment}
use pop_node.Extension.Functions.{execute_tuple, dispatch_function, read_function}
use pop_node.Extension.Decoding.{decode}
use pop_node.Extension.Filtering.{
  KeepsChain, RefusesFiltered, dispatch_call-chain, read_state-chain,
}
use pop_node.Api.Extension.{func_id, identified_by_first_byte}
use pop_node.Api.Fungibles.Types.{Call}
use pop_node.Runtime.Calls.{RuntimeCall, BalancesCall}
use pop_node.Runtime.Versioning.{VersionedRuntimeCall, into_call, contracts_decoding_failed}
use pop_node.Runtime.Filter.{contains_call, is_api_call, base_call_filter, filtered_calls}
use pop_node.Runtime.Config.{Host, dispatching, reading, call_api, functions}

abbrev pub IsFungibles : {Other : Type 0} → RuntimeCall Other → Type 0
IsFungibles c = (x : Call) × (c ≡ RuntimeCall.fungibles x)

-- The filter lets through the calls of the fungibles pallet, all of them, and no other call.
pub contains_call_iff :
    {Other : Type 0} (c : RuntimeCall Other) → (contains_call c ≡ true) ↔ IsFungibles c
unfolding contains_call base_call_filter filtered_calls is_api_call
contains_call_iff (RuntimeCall.fungibles (Call.transfer a b c)) =
    (λ _. (Call.transfer a b c, refl), λ _. refl)
contains_call_iff (RuntimeCall.fungibles x) = (λ _. (x, refl), λ _. refl)
contains_call_iff (RuntimeCall.balances BalancesCall.force_adjust_total_issuance) =
    (λ p. absurd cc, λ (x, p). absurd cc)
contains_call_iff _ = (λ p. absurd cc, λ (x, p). absurd cc)

not_fungibles : {Other : Type 0} (c : RuntimeCall Other) → ¬ IsFungibles c → contains_call c ≡ false
not_fungibles c n = elim (Bool-cases (contains_call c)) [
  | inl p ↦ absurd (n ((contains_call_iff c).0 p))
  | inr p ↦ p
]

module _ (e : Environment) {Other W : Type 0} (h : Host e Other) (chain : e.State → W)
    (k : KeepsChain e chain) where
  execute_tuple-chain :
      (s : e.State)
      → RefusesFiltered e chain k (dispatching e h) h.call_filtered
      → (func_id e s ≡ 0
          → (out : VersionedRuntimeCall Other) → (decode e (dispatching e h).decoder s).0 ≡ ok out
          → ¬ IsFungibles (into_call out))
      → chain (execute_tuple e contracts_decoding_failed (functions e h) s).1 ≡ chain s
  unfolding functions execute_tuple dispatching reading identified_by_first_byte dispatch_function
      read_function
  execute_tuple-chain s law n = elim (Bool-cases (func_id e s == 0)) [
    | inl p ↦ rw p (
        dispatch_call-chain e chain k (dispatching e h) law s
          (λ out p'. not_fungibles (into_call out) (n ((==_iff (func_id e s) 0).0 p) out p')))
    | inr p ↦ elim (Bool-cases (func_id e s == 1)) [
      | inl q ↦ rw (p, q) (read_state-chain e chain k (reading e h) s)
      | inr q ↦ rw (p, q) refl
    ]
  ]

  -- Whatever a contract sends, the part of the state that charging, adjusting, writing and refused
  -- dispatches leave alone stays as it was, unless the first byte of the function identifier is 0
  -- and the input decodes to a call of the fungibles pallet.
  pub call_api-chain :
      (s : e.State)
      → RefusesFiltered e chain k (dispatching e h) h.call_filtered
      → let t = (e.charge_weight (h.seal_debug_message (e.in_len s)) s).1 in
        (func_id e t ≡ 0
          → (out : VersionedRuntimeCall Other) → (decode e (dispatching e h).decoder t).0 ≡ ok out
          → ¬ IsFungibles (into_call out))
        → chain (call_api e h s).1 ≡ chain s
  unfolding call_api call
  call_api-chain s law n =
      let w = h.seal_debug_message (e.in_len s) in
      elim (Result-cases (e.charge_weight w s).0) [
        | inr (x, unpaid) ↦ rw unpaid (k.charge_keeps w s)
        | inl (c, charged) ↦
            rw charged (execute_tuple-chain (e.charge_weight w s).1 law n ∙ k.charge_keeps w s)
      ]
