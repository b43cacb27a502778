-- ===== src/Extension/Weights.antt =====
-- The weight that a call of the chain extension is charged for (extension/src).
use pop_node.Prelude.{
  ℕ, ◌≡◌, refl, ap, sym, ◌∙◌, ◌≤◌, Bool, true, false, none, List, length, Result, ok, err,
  >>=-eq-ok, ensure-eq-ok, pure, lift, ◌>>=◌, arith,
}
use pop_node.Frame.{
  Weight, add_weight, DispatchError, RetVal, converging, DispatchOutcome, add_weight_cancel,
}
use pop_node.Extension.Environment.{Environment}
use pop_node.Extension.Decoding.{Decoder, decode, decode_input, decode_input-state}
use pop_node.Extension.Functions.{
  DispatchCall, ReadState, dispatch_call, dispatch_charged, read_state, read_charged, return_bytes,
  finish,
}

-- What pallet-contracts documents of its gas meter: a charge that succeeds spends its amount, a
-- write with no weight per byte spends nothing, and an adjustment replaces an amount that was
-- charged, and is among what was spent, by a smaller actual one.
pub record Meter (e : Environment) : Type 0 where
  pub spent : e.State → Weight
  pub charge_spends :
      (w : Weight) (s : e.State) (c : e.ChargedAmount)
      → (e.charge_weight w s).0 ≡ ok c
      → spent (e.charge_weight w s).1 ≡ add_weight (spent s) w
  pub write_spends :
      (bytes : List ℕ) (skip : Bool) (s : e.State) → spent (e.write bytes skip none s).1 ≡ spent s
  pub adjust_spends :
      (w actual : Weight) (s t : e.State) (c : e.ChargedAmount)
      → (e.charge_weight w s).0 ≡ ok c
      → actual.ref_time ≤ w.ref_time
      → actual.proof_size ≤ w.proof_size
      → w.ref_time ≤ (spent t).ref_time
      → w.proof_size ≤ (spent t).proof_size
      → add_weight (spent (e.adjust_weight c actual t)) w ≡ add_weight (spent t) actual

module _ (e : Environment) (m : Meter e) where
  open m use {spent}

  -- A decoding is charged by the length of the input, whether it fails or not.
  decode-spent :
      {Output : Type 0} (d : Decoder e Output) (s : e.State) (c : e.ChargedAmount)
      → (e.charge_weight (d.seal_return (e.in_len s)) s).0 ≡ ok c
      → spent (decode e d s).1 ≡ add_weight (spent s) (d.seal_return (e.in_len s))
  unfolding decode
  decode-spent d s c h =
      rw (h, decode)
        (ap spent
            (decode_input-state e d (e.in_len s) (e.charge_weight (d.seal_return (e.in_len s)) s).1)
          ∙ m.charge_spends _ s c h)

  -- A decoding that succeeds was charged by the length of the input.
  decode-ok :
      {Output : Type 0} (d : Decoder e Output) (s : e.State) {out : Output}
      → (decode e d s).0 ≡ ok out
      → spent (decode e d s).1 ≡ add_weight (spent s) (d.seal_return (e.in_len s))
  unfolding decode
  decode-ok d s h =
      let (c, charged, rest) =
        >>=-eq-ok (e.charge_weight (d.seal_return (e.in_len s)))
          (λ _. decode_input e d (e.in_len s)) s (λ i. (h i, (decode e d s).1)) in
      decode-spent d s c charged

  module _ {Output Read ReadResult : Type 0} (f : ReadState e Output Read ReadResult) where
    return_bytes-spent :
        (bytes : List ℕ) (s : e.State) {v : RetVal} {s' : e.State}
        → return_bytes e f bytes s ≡ (ok v, s')
        → (s' ≡ (e.write bytes false none (e.charge_weight (f.seal_input (length bytes)) s).1).1)
          × (spent s' ≡ add_weight (spent s) (f.seal_input (length bytes)))
          × (v ≡ converging 0)
    unfolding return_bytes
    return_bytes-spent bytes s h =
        let w = f.seal_input (length bytes) in
        let (c, charged, h₁) =
          >>=-eq-ok (e.charge_weight w) (λ _. e.write bytes false none >>= λ _. pure (converging 0))
            s h in
        let s₁ = (e.charge_weight w s).1 in
        let (u, wrote, h₂) =
          >>=-eq-ok (e.write bytes false none) (λ _. pure (converging 0)) s₁ h₁ in
        (
          sym (ap (λ r. r.1) h₂),
          sym (ap (λ r. spent r.1) h₂)
              ∙ m.write_spends bytes false s₁
              ∙ m.charge_spends w s c charged,
          cc h₂,
        )

    read_charged-spent :
        (read : Read) (s : e.State) {v : RetVal} {s' : e.State}
        → read_charged e f read s ≡ (ok v, s')
        → (bytes : List ℕ) × (f.filter read ≡ true)
          × (f.try_convert (f.read read s) s ≡ ok bytes)
          × (s' ≡ (e.write bytes false none (e.charge_weight (f.seal_input (length bytes)) s).1).1)
          × (spent s' ≡ add_weight (spent s) (f.seal_input (length bytes)))
          × (v ≡ converging 0)
    unfolding read_charged
    read_charged-spent read s h =
        let (allowed, h₁) = ensure-eq-ok (f.filter read) f.call_filtered _ s h in
        let (bytes, converted, h₂) =
          >>=-eq-ok (λ env. lift (f.try_convert (f.read read s) env) env) (return_bytes e f) s h₁ in
        let (wrote, spends, result) = return_bytes-spent bytes s h₂ in
        (bytes, allowed, converted, wrote, spends, result)

    -- On a meter that keeps its laws, a state read that succeeds is the read that the input decodes to.
    -- It has passed the filter, writes the bytes that its result converts to, returns the status code
    -- 0, and has spent the weight of reading its input, of the read itself and of writing those
    -- bytes, and nothing else.
    pub read_state-spent :
        (s : e.State) {v : RetVal} {s' : e.State}
        → read_state e f s ≡ (ok v, s')
        → (out : Output) × (bytes : List ℕ) × let read = f.into out in
            let t = (e.charge_weight (f.weight read) (decode e f.decoder s).1).1 in
            let t' = (e.charge_weight (f.seal_input (length bytes)) t).1 in
            ((decode e f.decoder s).0 ≡ ok out)
            × (f.filter read ≡ true)
            × (f.try_convert (f.read read t) t ≡ ok bytes)
            × (s' ≡ (e.write bytes false none t').1)
            × (spent s'
                ≡ add_weight
                    (add_weight
                      (add_weight (spent s) (f.decoder.seal_return (e.in_len s)))
                      (f.weight read))
                    (f.seal_input (length bytes)))
            × (v ≡ converging 0)
    unfolding read_state
    read_state-spent s h =
        let (out, decoded, h₁) = >>=-eq-ok (decode e f.decoder) _ s h in
        let read = f.into out in
        let s₁ = (decode e f.decoder s).1 in
        let (c, charged, h₂) =
          >>=-eq-ok (e.charge_weight (f.weight read)) (λ _. read_charged e f read) s₁ h₁ in
        let (bytes, allowed, converted, wrote, spends, result) =
          read_charged-spent read (e.charge_weight (f.weight read) s₁).1 h₂ in
        (
          out,
          bytes,
          (
            decoded,
            allowed,
            converted,
            wrote,
            spends
                ∙ ap (λ t. add_weight t (f.seal_input (length bytes)))
                    (m.charge_spends _ s₁ c charged
                      ∙ ap (λ t. add_weight t (f.weight read)) (decode-ok f.decoder s decoded)),
            result,
          ),
        )

  -- What FRAME documents: dispatching does not touch the contract's gas meter, and the actual weight
  -- of a call is at most the weight that was charged for it.
  pub record DispatchLaws {Output Call : Type 0} (f : DispatchCall e Output Call) : Type 0 where
    pub dispatch_spends :
        (call : Call) (s : e.State) → spent (f.dispatch f.filter (e.address s) call s).1 ≡ spent s
    pub actual_ref_time :
        (o : DispatchOutcome) (w : Weight) → (f.extract_actual_weight o w).ref_time ≤ w.ref_time
    pub actual_proof_size :
        (o : DispatchOutcome) (w : Weight) → (f.extract_actual_weight o w).proof_size ≤ w.proof_size

  module _ {Output Call : Type 0} (f : DispatchCall e Output Call) (laws : DispatchLaws f) where
    finish-state : (r : Result DispatchError (Unit {0})) (s : e.State) → (finish e f r s).1 ≡ s
    unfolding finish
    finish-state (ok _) s = refl
    finish-state (err _) s = refl

    dispatch_charged-spent :
        (call : Call) (s : e.State) (c : e.ChargedAmount)
        → (e.charge_weight (f.dispatch_weight call) s).0 ≡ ok c
        → let t = (e.charge_weight (f.dispatch_weight call) s).1 in
          let outcome = (f.dispatch f.filter (e.address t) call t).0 in
          spent (dispatch_charged e f call c t).1
          ≡ add_weight (spent s) (f.extract_actual_weight outcome (f.dispatch_weight call))
    unfolding dispatch_charged
    dispatch_charged-spent call s c charged =
        let w = f.dispatch_weight call in
        let t = (e.charge_weight w s).1 in
        let (outcome, t') = f.dispatch f.filter (e.address t) call t in
        let actual = f.extract_actual_weight outcome w in
        let now : spent t' ≡ add_weight (spent s) w =
          laws.dispatch_spends call t ∙ m.charge_spends w s c charged in
        ap spent (finish-state outcome.result (e.adjust_weight c actual t'))
        ∙ add_weight_cancel _ _ _ w (
            m.adjust_spends w actual s t' c charged (laws.actual_ref_time outcome w)
              (laws.actual_proof_size outcome w) (omega (arith, ap (λ x. x.ref_time) now))
              (omega (arith, ap (λ x. x.proof_size) now))
            ∙ ap (λ x. add_weight x actual) now)

    -- On a meter that keeps its laws, a call that is decoded and paid for costs the weight of
    -- reading its input and the actual weight of the dispatch, whether the dispatch succeeds or
    -- fails.
    pub dispatch_call-spent :
        (s : e.State) (out : Output) (c : e.ChargedAmount)
        → (decode e f.decoder s).0 ≡ ok out
        → (e.charge_weight (f.dispatch_weight (f.into out)) (decode e f.decoder s).1).0 ≡ ok c
        → let t = (e.charge_weight (f.dispatch_weight (f.into out)) (decode e f.decoder s).1).1 in
          let outcome = (f.dispatch f.filter (e.address t) (f.into out) t).0 in
          spent (dispatch_call e f s).1
          ≡ add_weight
              (add_weight (spent s) (f.decoder.seal_return (e.in_len s)))
              (f.extract_actual_weight outcome (f.dispatch_weight (f.into out)))
    unfolding dispatch_call
    dispatch_call-spent s out c decoded charged =
        let call = f.into out in
        let s₁ = (decode e f.decoder s).1 in
        let t = (e.charge_weight (f.dispatch_weight call) s₁).1 in
        let outcome = (f.dispatch f.filter (e.address t) call t).0 in
        rw (decoded, charged)
          (dispatch_charged-spent call s₁ c charged
            ∙ ap (λ x. add_weight x (f.extract_actual_weight outcome (f.dispatch_weight call)))
                (decode-ok f.decoder s decoded))
