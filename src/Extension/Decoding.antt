-- ===== src/Extension/Decoding.antt =====
-- extension/src/decoding.rs
use pop_node.Prelude.{
  ℕ, Option, some, ok, List, Result-cases, ◌≡◌, refl, inl, inr, continue, Exec, ok_or, gets, lift,
  ◌>>=◌, ◌>>◌,
}
use pop_node.Frame.{Weight, DispatchError}
use pop_node.Extension.Environment.{Environment}

module _ (e : Environment) where
  open e use {State, in_len, read, charge_weight}

  -- `Identity`
  unfoldable pub identity : List ℕ → State → List ℕ
  identity value env = value

  -- The type parameters of `Decodes`: the output's SCALE decoder, the weight of `seal_return`, the
  -- error of a failed decoding and the processor.
  pub record Decoder (Output : Type 0) : Type 0 where
    pub output : List ℕ → Option Output
    pub seal_return : ℕ → Weight
    pub error : DispatchError
    pub process : List ℕ → State → List ℕ

  -- What follows the charge for the input.
  unfoldable pub decode_input :
      {Output : Type 0} → Decoder Output → ℕ → Exec DispatchError State Output
  decode_input d len = do
    input ← (λ env. lift (read len env) env)
    input ← gets (d.process input)
    lift (ok_or (d.output input) d.error)

  -- `Decodes::decode`
  unfoldable pub decode : {Output : Type 0} → Decoder Output → Exec DispatchError State Output
  decode d = do len ← gets in_len; charge_weight (d.seal_return len); decode_input d len

  -- Reading and decoding the input changes nothing.
  pub decode_input-state :
      {Output : Type 0} (d : Decoder Output) (len : ℕ) (s : State) → (decode_input d len s).1 ≡ s
  unfolding decode_input
  decode_input-state d len s = elim (Result-cases (read len s)) [
    | inl (input, e) ↦ rw (e, continue) refl
    | inr (error, e) ↦ rw (e, continue) refl
  ]

  -- Where the input can be read and, once processed, is an output, that output is decoded.
  pub decode_input-eq_ok :
      {Output : Type 0} (d : Decoder Output) (len : ℕ) (s : State) (input : List ℕ) (v : Output)
      → read len s ≡ ok input
      → d.output (d.process input s) ≡ some v
      → decode_input d len s ≡ (ok v, s)
  unfolding decode_input
  decode_input-eq_ok d len s input v r p = rw (r, p) refl
