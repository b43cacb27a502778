-- ===== src/Runtime/Metering.antt =====
-- The weight that a call of the runtime's chain extension costs (runtime/devnet/src/config/api/mod.rs
-- over extension/src).
use pop_node.Prelude.{
  false, none, Result, map_ok, ℕ, ◌≡◌, ◌⊎◌, inl, inr, true, sym, ap, ◌∙◌, ◌==◌, ==_iff, Bool-cases,
  List, length, ok, >>=-eq-ok,
}
use pop_node.Frame.{DispatchError, Weight, add_weight, RetVal, converging}
use pop_node.Extension
use pop_node.Extension.Environment.{Environment}
use pop_node.Extension.Decoding.{decode}
use pop_node.Extension.Functions.{
  DispatchCall, dispatch_call, execute_tuple, dispatch_function, read_function,
}
use pop_node.Extension.Weights.{Meter, DispatchLaws, dispatch_call-spent, read_state-spent}
use pop_node.Api.Extension.{try_convert, identified_by_first_byte, func_id, decodes_as}
use pop_node.Runtime.Calls.{RuntimeCall, RuntimeRead, runtime_weight, runtime_read}
use pop_node.Runtime.Versioning.{
  VersionedRuntimeRead, into_read, result_bytes, try_from_result, VersionedRuntimeCall, into_call,
  contracts_decoding_failed,
}
use pop_node.Runtime.Filter.{contains_call, contains_read}
use pop_node.Runtime.Config.{Host, dispatching, reading, functions, call_api}

-- A dispatch that gives the contract an answer was decoded and charged for.
dispatch_call-ok :
    (e : Environment) {Output Call : Type 0} (f : DispatchCall e Output Call) (s : e.State)
    {v : RetVal} {s' : e.State}
    → dispatch_call e f s ≡ (ok v, s')
    → (out : Output) × (c : e.ChargedAmount) × ((decode e f.decoder s).0 ≡ ok out)
      × ((e.charge_weight (f.dispatch_weight (f.into out)) (decode e f.decoder s).1).0 ≡ ok c)
unfolding dispatch_call
dispatch_call-ok e f s h =
    let (out, decoded, h₁) = >>=-eq-ok (decode e f.decoder) _ s h in
    let s₁ = (decode e f.decoder s).1 in
    let (c, charged, _) = >>=-eq-ok (e.charge_weight (f.dispatch_weight (f.into out))) _ s₁ h₁ in
    (out, c, decoded, charged)

module _ (e : Environment) {Other : Type 0} (h : Host e Other) (m : Meter e) where
  open m use {spent}

  -- What a request costs before its function runs: the overhead, then the reading of the input.
  abbrev pub entry : e.State → e.State → Weight
  entry s u =
      add_weight (add_weight (spent s) (h.seal_debug_message (e.in_len s)))
        (h.seal_return (e.in_len u))

  -- The state in which a decoded call is dispatched.
  abbrev pub charged_for : RuntimeCall Other → e.State → e.State
  charged_for call u =
      (e.charge_weight (h.dispatch_weight call) (decode e (dispatching e h).decoder u).1).1

  -- The weight of a decoded call: what FRAME makes of the outcome of its dispatch.
  abbrev pub actual : RuntimeCall Other → e.State → Weight
  actual call u =
      let t = charged_for call u in
      h.extract_actual_weight (h.dispatch contains_call (e.address t) call t).0
        (h.dispatch_weight call)

  -- The state in which a decoded read is read.
  abbrev pub read_at : RuntimeRead → e.State → e.State
  read_at read u =
      (e.charge_weight (runtime_weight h.weights read) (decode e (reading e h).decoder u).1).1

  -- The result of a decoded read, in the version of the request.
  abbrev pub result_of : RuntimeRead → e.State → Result DispatchError (List ℕ)
  result_of read u =
      let t = read_at read u in
      map_ok (result_bytes h.scale)
        (try_convert e try_from_result (runtime_read h.assets read (h.assets_in t)) t)

  -- The state after the result has been paid for by its length and written to the contract.
  abbrev pub written : List ℕ → e.State → e.State
  written bytes t = (e.write bytes false none (e.charge_weight (h.seal_input (length bytes)) t).1).1

  -- What a call of the extension cost that gave the contract an answer.
  abbrev pub Costs : e.State → e.State → RetVal → e.State → Type 0
  Costs s u v s' =
      ((func_id e u ≡ 0)
        × (out : VersionedRuntimeCall Other) × ((decode e (dispatching e h).decoder u).0 ≡ ok out)
        × (spent s' ≡ add_weight (entry s u) (actual (into_call out) u)))
      ⊎ ((func_id e u ≡ 1)
          × (out : VersionedRuntimeRead) × (bytes : List ℕ) × ((decode e (reading e h).decoder u).0
              ≡ ok out)
          × (contains_read (into_read out) ≡ true)
          × (result_of (into_read out) u ≡ ok bytes)
          × (s' ≡ written bytes (read_at (into_read out) u))
          × (v ≡ converging 0)
          × (spent s'
              ≡ add_weight (add_weight (entry s u) (runtime_weight h.weights (into_read out)))
                  (h.seal_input (length bytes))))

  -- The overhead once charged, the tuple of functions costs the rest.
  execute-Costs :
      (laws : DispatchLaws e m (dispatching e h)) (s u : e.State) {v : RetVal} {s' : e.State}
      → spent u ≡ add_weight (spent s) (h.seal_debug_message (e.in_len s))
      → execute_tuple e contracts_decoding_failed (functions e h) u ≡ (ok v, s')
      → Costs s u v s'
  unfolding functions execute_tuple dispatching reading identified_by_first_byte dispatch_function
      read_function decodes_as
  execute-Costs laws s u begun r = elim (Bool-cases (func_id e u == 0)) [
    | inl p ↦
        let ran = rw p at r in
        let (out, c, decoded, charged) = dispatch_call-ok e (dispatching e h) u ran in
        inl (
          (==_iff (func_id e u) 0).0 p,
          out,
          decoded,
          ap (λ x. spent x.1) (sym ran)
              ∙ dispatch_call-spent e m (dispatching e h) laws u out c decoded charged
              ∙ ap
                  (λ w.
                    add_weight (add_weight w (h.seal_return (e.in_len u)))
                      (actual (into_call out) u))
                  begun,
        )
    | inr p ↦ elim (Bool-cases (func_id e u == 1)) [
      | inr q ↦ absurd (cc (rw (p, q) at r))
      | inl q ↦
          let (out, bytes, (decoded, allowed, converted, wrote, spends, answer)) =
            read_state-spent e m (reading e h) u (rw (p, q) at r) in
          inr (
            (==_iff (func_id e u) 1).0 q,
            out,
            bytes,
            decoded,
            allowed,
            converted,
            wrote,
            answer,
            spends
                ∙ ap
                    (λ w.
                      add_weight
                        (add_weight (add_weight w (h.seal_return (e.in_len u)))
                          (runtime_weight h.weights (into_read out)))
                        (h.seal_input (length bytes)))
                    begun,
          )
    ]
  ]

  -- On a meter that keeps its laws, where FRAME keeps its own: a call of the chain extension that
  -- gives the contract an answer, be it an error of the dispatch, has cost the overhead, the reading of
  -- its input, and then, for the function 0, the weight that the dispatch of the decoded call took,
  -- or, for the function 1, the weight of the decoded read, which the filter lets through, and of
  -- writing as many bytes as its result has, which are what is written; and nothing else. No other
  -- function gives an answer.
  pub call_api-Costs :
      (laws : DispatchLaws e m (dispatching e h)) (s : e.State) {v : RetVal} {s' : e.State}
      → call_api e h s ≡ (ok v, s')
      → Costs s (e.charge_weight (h.seal_debug_message (e.in_len s)) s).1 v s'
  unfolding call_api Extension.call
  call_api-Costs laws s r =
      let w = h.seal_debug_message (e.in_len s) in
      let u = (e.charge_weight w s).1 in
      let (c, charged, ran) = >>=-eq-ok (e.charge_weight w) _ s r in
      execute-Costs laws s u (m.charge_spends w s c charged) ran
