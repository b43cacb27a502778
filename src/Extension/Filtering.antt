-- ===== src/Extension/Filtering.antt =====
-- What the filters of the chain extension guarantee (extension/src/functions.rs).
use pop_node.Prelude.{
  ℕ, ◌≡◌, refl, ap, ◌∙◌, Bool, false, Option, none, List, length, Bool-cases, ok, err, inl, inr,
  Result-cases,
}
use pop_node.Frame.{AccountId, Weight, DispatchError, DispatchOutcome}
use pop_node.Extension.Environment.{Environment}
use pop_node.Extension.Decoding.{Decoder, decode, decode_input-state}
use pop_node.Extension.Functions.{
  DispatchCall, ReadState, dispatch_call, dispatch_charged, read_state, read_charged, return_bytes,
}

-- What pallet-contracts documents: charging and adjusting weight and writing to the contract's memory
-- leave alone the chain's state, of which `chain` is a view.
pub record KeepsChain (e : Environment) {W : Type 0} (chain : e.State → W) : Type 0 where
  pub charge_keeps : (w : Weight) (s : e.State) → chain (e.charge_weight w s).1 ≡ chain s
  pub adjust_keeps :
      (c : e.ChargedAmount) (w : Weight) (s : e.State) → chain (e.adjust_weight c w s) ≡ chain s
  pub write_keeps :
      (bytes : List ℕ) (skip : Bool) (w : Option Weight) (s : e.State)
      → chain (e.write bytes skip w s).1 ≡ chain s

module _ (e : Environment) {W : Type 0} (chain : e.State → W) (k : KeepsChain e chain) where
  decode-chain :
      {Output : Type 0} (d : Decoder e Output) (s : e.State) → chain (decode e d s).1 ≡ chain s
  unfolding decode
  decode-chain d s =
      let w = d.seal_return (e.in_len s) in
      elim (Result-cases (e.charge_weight w s).0) [
        | inl (c, charged) ↦
            rw (charged, decode)
              (ap chain (decode_input-state e d (e.in_len s) (e.charge_weight w s).1)
                ∙ k.charge_keeps w s)
        | inr (x, failed) ↦ rw (failed, decode) (k.charge_keeps w s)
      ]

  module _ {Output Call : Type 0} (f : DispatchCall e Output Call) where
    -- What FRAME documents: an origin whose filter refuses a call does not dispatch it.
    pub record RefusesFiltered (call_filtered : DispatchError) : Type 0 where
      pub refuses :
          (call : Call) (origin : AccountId) (s : e.State)
          → f.filter call ≡ false
          → (weight : Option Weight) × (f.dispatch f.filter origin call s
              ≡ (record { actual_weight = weight; result = err call_filtered }, s))

    module _ {call_filtered : DispatchError} (law : RefusesFiltered call_filtered) where
      dispatch_charged_refused :
          (call : Call) (c : e.ChargedAmount) (t : e.State)
          → f.filter call ≡ false
          → (u : e.State) × (chain u ≡ chain t)
            × (dispatch_charged e f call c t ≡ (f.convert call_filtered u, u))
      unfolding dispatch_charged
      dispatch_charged_refused call c t refused =
          let (weight, p) = law.refuses call (e.address t) t refused in
          let outcome : DispatchOutcome = record {
            actual_weight = weight;
            result = err call_filtered;
          } in
          (
            e.adjust_weight c (f.extract_actual_weight outcome (f.dispatch_weight call)) t,
            k.adjust_keeps c (f.extract_actual_weight outcome (f.dispatch_weight call)) t,
            rw p refl,
          )

      -- Where every input that can be decoded is a call that the filter refuses, `DispatchCall`
      -- leaves the chain as it was, also where the input is no call or its weight cannot be paid
      -- for.
      pub dispatch_call-chain :
          (s : e.State)
          → ((out : Output) → (decode e f.decoder s).0 ≡ ok out → f.filter (f.into out) ≡ false)
          → chain (dispatch_call e f s).1 ≡ chain s
      unfolding dispatch_call
      dispatch_call-chain s refused =
          let s₁ = (decode e f.decoder s).1 in
          elim (Result-cases (decode e f.decoder s).0) [
            | inr (x, failed) ↦ rw (failed) (decode-chain f.decoder s)
            | inl (out, decoded) ↦
                let w = f.dispatch_weight (f.into out) in
                elim (Result-cases (e.charge_weight w s₁).0) [
                  | inr (x, unpaid) ↦
                      rw (decoded, unpaid) (k.charge_keeps w s₁ ∙ decode-chain f.decoder s)
                  | inl (c, charged) ↦
                      let (u, kept, p) =
                        dispatch_charged_refused (f.into out) c (e.charge_weight w s₁).1
                          (refused out decoded) in
                      rw (decoded, charged)
                        (ap (λ r. chain r.1) p
                          ∙ kept
                          ∙ k.charge_keeps w s₁
                          ∙ decode-chain f.decoder s)
                ]
          ]

      -- A call that is decoded and paid for, but that the filter refuses, leaves the chain as it
      -- was, and the contract is given the filter's error as the error converter reads it.
      pub dispatch_call_refused :
          (s : e.State) (out : Output) (c : e.ChargedAmount)
          → (decode e f.decoder s).0 ≡ ok out
          → (e.charge_weight (f.dispatch_weight (f.into out)) (decode e f.decoder s).1).0 ≡ ok c
          → f.filter (f.into out) ≡ false
          → (u : e.State) × (chain u ≡ chain s)
            × (dispatch_call e f s ≡ (f.convert call_filtered u, u))
      unfolding dispatch_call
      dispatch_call_refused s out c decoded charged refused =
          let w = f.dispatch_weight (f.into out) in
          let s₁ = (decode e f.decoder s).1 in
          let (u, kept, p) =
            dispatch_charged_refused (f.into out) c (e.charge_weight w s₁).1 refused in
          (u, kept ∙ k.charge_keeps w s₁ ∙ decode-chain f.decoder s, rw (decoded, charged) p)

  module _ {Output Read ReadResult : Type 0} (f : ReadState e Output Read ReadResult) where
    return_bytes-chain :
        (bytes : List ℕ) (s : e.State) → chain (return_bytes e f bytes s).1 ≡ chain s
    unfolding return_bytes
    return_bytes-chain bytes s =
        let w = f.seal_input (length bytes) in
        let s₁ = (e.charge_weight w s).1 in
        elim (Result-cases (e.charge_weight w s).0) [
          | inr (x, unpaid) ↦ rw (unpaid) (k.charge_keeps w s)
          | inl (c, charged) ↦ rw (charged) (elim (Result-cases (e.write bytes false none s₁).0) [
            | inr (x, failed) ↦ rw failed (k.write_keeps bytes false none s₁ ∙ k.charge_keeps w s)
            | inl (x, wrote) ↦ rw wrote (k.write_keeps bytes false none s₁ ∙ k.charge_keeps w s)
          ])
        ]

    read_charged-chain : (read : Read) (s : e.State) → chain (read_charged e f read s).1 ≡ chain s
    unfolding read_charged
    read_charged-chain read s = elim (Bool-cases (f.filter read)) [
      | inr refused ↦ rw refused refl
      | inl allowed ↦ rw allowed (elim (Result-cases (f.try_convert (f.read read s) s)) [
        | inr (x, failed) ↦ rw failed refl
        | inl (bytes, converted) ↦ rw converted (return_bytes-chain bytes s)
      ])
    ]

    -- A state read, allowed or refused, whole or failed, leaves the chain as it was.
    pub read_state-chain : (s : e.State) → chain (read_state e f s).1 ≡ chain s
    unfolding read_state
    read_state-chain s =
        let s₁ = (decode e f.decoder s).1 in
        elim (Result-cases (decode e f.decoder s).0) [
          | inr (x, failed) ↦ rw failed (decode-chain f.decoder s)
          | inl (out, decoded) ↦
              let w = f.weight (f.into out) in
              elim (Result-cases (e.charge_weight w s₁).0) [
                | inr (x, unpaid) ↦
                    rw (decoded, unpaid) (k.charge_keeps w s₁ ∙ decode-chain f.decoder s)
                | inl (c, charged) ↦
                    rw (decoded, charged)
                      (read_charged-chain (f.into out) (e.charge_weight w s₁).1
                        ∙ k.charge_keeps w s₁
                        ∙ decode-chain f.decoder s)
              ]
        ]
