-- ===== src/Runtime/Unanswered.antt =====
-- The requests that the runtime does not answer: those in a version that it does not have, and those for
-- a pallet that it does not have (runtime/devnet/src/config/api over extension/src).
use mathlib.Core.Option
use pop_node.Prelude.{
  ◌∷◌, false, ℕ, ◌≡◌, ◌≢◌, refl, sym, ap, ◌∙◌, ◌==◌, ==_ne, Bool-cases, Result-cases, List, none,
  ok, err, inl, inr, >>=-eq-ok,
}
use pop_node.Prelude.Bytes.{low_byte, high_byte}
use pop_node.Frame.{DispatchError, RetVal, Weight}
use pop_node.Extension
use pop_node.Extension.Environment.{Environment}
use pop_node.Extension.Decoding.{Decoder, decode, decode_input}
use pop_node.Extension.Functions.{
  dispatch_call, read_state, execute_tuple, dispatch_function, read_function,
}
use pop_node.Extension.Filtering.{KeepsChain, RefusesFiltered}
use pop_node.Api.Extension.{
  module_and_index, version, func_id, prepend, decodes_as, identified_by_first_byte,
}
use pop_node.Runtime.Versioning.{
  contracts_decoding_failed, decode_versioned_call, decode_versioned_read,
}
use pop_node.Api.Codec.{Reader, Scale, ◌>>=◌}
use pop_node.Runtime.Calls.{RuntimeCall, decode_runtime_call, decode_runtime_read, fungibles_index}
use pop_node.Runtime.Pallets.{Pallet, devnet_index}
use pop_node.Runtime.Config.{Host, dispatching, reading, functions, call_api}
use pop_node.Runtime.Allowed.{call_api-chain}

-- An input whose every reading is no output is not decoded.
decode_none :
    (e : Environment) {Output : Type 0} (d : Decoder e Output) (s : e.State) {out : Output}
    → let t = (e.charge_weight (d.seal_return (e.in_len s)) s).1 in
      ((input : List ℕ) → d.output (d.process input t) ≡ none) → (decode e d s).0 ≢ ok out
unfolding decode decode_input
decode_none e d s undecodable p =
    let w = d.seal_return (e.in_len s) in
    let t = (e.charge_weight w s).1 in
    elim (Result-cases (e.charge_weight w s).0) [
      | inr (x, unpaid) ↦ absurd (cc (rw unpaid at p))
      | inl (c, paid) ↦ elim (Result-cases (e.read (e.in_len s) t)) [
        | inr (x, unread) ↦ absurd (cc (rw (paid, unread) at p))
        | inl (input, r) ↦ absurd (cc (rw (paid, r, undecodable input) at p))
      ]
    ]

call_none :
    {Other : Type 0} (c : Scale) (others : ℕ → Reader (RuntimeCall Other)) (v i : ℕ)
    (bytes : List ℕ)
    → (i == fungibles_index) ≡ false
    → others i bytes ≡ none
    → decode_versioned_call c others (v ∷ i ∷ bytes) ≡ none
unfolding decode_versioned_call decode_runtime_call
call_none c others v i bytes p q = elim (Bool-cases (v == 0)) [
  | inl z ↦ rw (z, ◌>>=◌, decode_runtime_call, p, q) refl
  | inr z ↦ rw z refl
]

read_none :
    (c : Scale) (v i : ℕ) (bytes : List ℕ)
    → (i == fungibles_index) ≡ false
    → decode_versioned_read c (v ∷ i ∷ bytes) ≡ none
unfolding decode_versioned_read decode_runtime_read
read_none c v i bytes p = elim (Bool-cases (v == 0)) [
  | inl z ↦ rw (z, ◌>>=◌, decode_runtime_read, p) refl
  | inr z ↦ rw z refl
]

module _ (e : Environment) {Other : Type 0} (h : Host e Other) where
  -- The two identifiers of a request.
  abbrev pub ids : e.State → ℕ × ℕ
  ids s = (e.func_id s, e.ext_id s)

  -- No input is a call or a read in a state with these identifiers.
  abbrev Undecodable : ℕ × ℕ → Type 0
  Undecodable i =
      (s : e.State) (input : List ℕ)
      → ids s ≡ i
      → ((dispatching e h).decoder.output ((dispatching e h).decoder.process input s) ≡ none)
        × ((reading e h).decoder.output ((reading e h).decoder.process input s) ≡ none)

  other_version : (i : ℕ × ℕ) → high_byte i.0 ≢ 0 → Undecodable i
  unfolding dispatching reading decodes_as prepend version decode_versioned_call
      decode_versioned_read
  other_version i ne s input same =
      let p = ==_ne (version e s) 0 (λ q. ne (ap (λ x. high_byte x.0) (sym same) ∙ q)) in
      (rw p refl, rw p refl)

  no_pallet :
      (i : ℕ × ℕ)
      → ((j : ℕ) (bytes : List ℕ) → ((p : Pallet) → devnet_index p ≢ j) → h.others j bytes ≡ none)
      → ((p : Pallet) → devnet_index p ≢ low_byte i.1)
      → Undecodable i
  unfolding dispatching reading decodes_as prepend version module_and_index devnet_index
  no_pallet i others missing s input same =
      let absent : (p : Pallet) → devnet_index p ≢ low_byte (e.ext_id s) =
        λ p q. missing p (q ∙ ap (λ x. low_byte x.1) same) in
      let p =
        ==_ne (low_byte (e.ext_id s)) fungibles_index (λ q. absent Pallet.fungibles (sym q)) in
      let none_at = others (low_byte (e.ext_id s)) (high_byte (e.ext_id s) ∷ input) absent in
      (
        ap (Option.map (λ r. r.0)) (call_none h.scale h.others _ _ _ p none_at),
        ap (Option.map (λ r. r.0)) (read_none h.scale _ _ _ p),
      )

  module _ (k : KeepsChain e ids) where
    kept : (w : Weight) (s : e.State) {i : ℕ × ℕ} → ids s ≡ i → ids (e.charge_weight w s).1 ≡ i
    kept w s same = k.charge_keeps w s ∙ same

    no_dispatch :
        (s : e.State) {v : RetVal} {s' : e.State}
        → Undecodable (ids s)
        → dispatch_call e (dispatching e h) s ≢ (ok v, s')
    unfolding dispatch_call
    no_dispatch s un r =
        let (out, decoded, _) = >>=-eq-ok (decode e (dispatching e h).decoder) _ s r in
        decode_none e (dispatching e h).decoder s (λ input. (un _ input (kept _ s refl)).0) decoded

    no_result :
        (s : e.State) {v : RetVal} {s' : e.State}
        → Undecodable (ids s)
        → read_state e (reading e h) s ≢ (ok v, s')
    unfolding read_state
    no_result s un r =
        let (out, decoded, _) = >>=-eq-ok (decode e (reading e h).decoder) _ s r in
        decode_none e (reading e h).decoder s (λ input. (un _ input (kept _ s refl)).1) decoded

    no_answer :
        (s : e.State) {v : RetVal} {s' : e.State}
        → Undecodable (ids s)
        → execute_tuple e contracts_decoding_failed (functions e h) s ≢ (ok v, s')
    unfolding functions execute_tuple dispatching reading identified_by_first_byte dispatch_function
        read_function decodes_as
    no_answer s un r = elim (Bool-cases (func_id e s == 0)) [
      | inl p ↦ no_dispatch s un (rw p at r)
      | inr p ↦ elim (Bool-cases (func_id e s == 1)) [
        | inl q ↦ no_result s un (rw (p, q) at r)
        | inr q ↦ absurd (cc (rw (p, q) at r))
      ]
    ]

    module _ {W : Type 0} (chain : e.State → W) (keeps : KeepsChain e chain) (s : e.State)
        (law : RefusesFiltered e chain keeps (dispatching e h) h.call_filtered) where
      -- The extension fails, and the chain stays as it was.
      abbrev pub Unanswered : Type 0
      Unanswered =
          ((x : DispatchError) × ((call_api e h s).0 ≡ err x))
          × (chain (call_api e h s).1 ≡ chain s)

      unanswered : Undecodable (ids s) → Unanswered
      unfolding call_api Extension.call
      unanswered un =
          let w = h.seal_debug_message (e.in_len s) in
          let u = (e.charge_weight w s).1 in
          let later : Undecodable (ids u) = λ t input same. un t input (same ∙ kept w s refl) in
          (
            elim (Result-cases (call_api e h s).0) [
              | inr failed ↦ failed
              | inl (v, answered) ↦
                  let (c, _, ran) =
                    >>=-eq-ok (e.charge_weight w) _ s (λ i. (answered i, (call_api e h s).1)) in
                  absurd (no_answer u later ran)
            ],
            call_api-chain e h chain keeps s law (λ _ out decoded. absurd (
                decode_none e (dispatching e h).decoder u
                  (λ input. (later _ input (kept _ u refl)).0) decoded)),
          )

      -- A request in a version other than 0, whatever its function and its input, is never answered,
      -- not even with a status code: the extension fails, and nothing changes in the part of the
      -- state that charging, adjusting, writing and refused dispatches leave alone; given that
      -- charging, adjusting and writing leave the identifiers of the request alone.
      pub unknown_version : version e s ≢ 0 → Unanswered
      unfolding version
      unknown_version ne = unanswered (other_version (ids s) ne)

      -- A request whose pallet byte is the index of no pallet of the devnet, whatever its function,
      -- version and input, is never answered, not even with a status code: the extension fails, and
      -- nothing changes in the part of the state that charging, adjusting, writing and refused
      -- dispatches leave alone; given that charging, adjusting and writing leave the identifiers of the
      -- request alone, and that no call is decoded for an index that no pallet has.
      pub unknown_pallet :
          ((i : ℕ) (bytes : List ℕ) → ((p : Pallet) → devnet_index p ≢ i) → h.others i bytes ≡ none)
          → ((p : Pallet) → devnet_index p ≢ low_byte (e.ext_id s))
          → Unanswered
      unknown_pallet law missing = unanswered (no_pallet (ids s) law missing)
