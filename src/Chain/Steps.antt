-- ===== src/Chain/Steps.antt =====
-- extension/src/lib.rs, functions.rs and decoding.rs, followed on a request that is paid for.
use pop_node.Prelude.{
  committed, ℕ, ◌<◌, ◌%◌, ◌/◌, ◌≡◌, refl, ap, sym, ◌∙◌, arith, Option, ok, err, List, Result,
}
use pop_node.Frame.{Weight, converging}
use pop_node.Extension.{call}
use pop_node.Extension.Environment.{Environment}
use pop_node.Extension.Decoding.{Decoder, decode, decode_input}
use pop_node.Extension.Functions.{
  DispatchCall, dispatch_call, dispatch_charged, run_dispatch, finish, execute_tuple,
  dispatch_function,
}
use pop_node.Api.Extension.{version, convert_error, decodes_as}
use pop_node.Api.Fungibles.Types.{Call, ErrorWithPostInfo}
use pop_node.Api.Fungibles.State.{State}
use pop_node.Api.Fungibles.Dispatch.{dispatch}
use pop_node.Runtime.Calls.{RuntimeCall}
use pop_node.Runtime.Filter.{contains_call}
use pop_node.Runtime.Versioning.{VersionedRuntimeCall, into_call, try_from_error, status_code}
use pop_node.Runtime.Config.{Host, dispatching, functions, call_api}
use pop_node.Runtime.Allowed.{contains_call_iff}
use pop_node.PopApi.Receiving.{Receives}
use pop_node.PopApi
use pop_node.PopApi.{build_extension_method}
use pop_node.PopApi.Fungibles.{build_dispatch}
use pop_node.PopApi.Requests.{sent, sent-lt, sent-decoded, CallInRange}
use pop_node.Chain.{KeepsRequest, without_info, Dispatches, Pays, code_of}

pub charge-Receives :
    (e : Environment) (k : KeepsRequest e) (method : ℕ) (input : List ℕ) (w : Weight) (s : e.State)
    → Receives e method input s
    → Receives e method input (e.charge_weight w s).1
charge-Receives e k method input w s r = record {
  func_id = k.func_id_keeps w s ∙ r.func_id;
  ext_id = k.ext_id_keeps w s ∙ r.ext_id;
  read =
      ap (λ n. e.read n (e.charge_weight w s).1) (k.in_len_keeps w s)
      ∙ k.read_keeps (e.in_len s) w s
      ∙ r.read;
}

-- An input that is paid for is decoded.
pub decode_paid :
    (e : Environment) {Output : Type 0} (d : Decoder e Output) (s : e.State) (c : e.ChargedAmount)
    → (e.charge_weight (d.seal_return (e.in_len s)) s).0 ≡ ok c
    → decode e d s
      ≡ decode_input e d (e.in_len s) (e.charge_weight (d.seal_return (e.in_len s)) s).1
unfolding decode
decode_paid e d s c p = rw p refl

module _ (e : Environment) {Other : Type 0} (h : Host e Other) where
  -- What a call that is decoded and paid for ends with.
  dispatch_call_paid :
      (f : DispatchCall e (VersionedRuntimeCall Other) (RuntimeCall Other)) (s t : e.State)
      (out : VersionedRuntimeCall Other) (c : e.ChargedAmount)
      → decode e f.decoder s ≡ (ok out, t)
      → (e.charge_weight (f.dispatch_weight (f.into out)) t).0 ≡ ok c
      → dispatch_call e f s
        ≡ dispatch_charged e f (f.into out) c (e.charge_weight (f.dispatch_weight (f.into out)) t).1
  unfolding dispatch_call
  dispatch_call_paid f s t out c decoded paid = rw (decoded, paid) refl

version_of_request :
    (e : Environment) (k : ℕ) (s : e.State)
    → k < 256
    → e.func_id s ≡ build_dispatch k % 65536
    → version e s ≡ 0
unfolding version build_dispatch PopApi.build_dispatch build_extension_method
version_of_request e k s lt p = omega (arith, p)

module _ (e : Environment) {Other : Type 0} (h : Host e Other) (pallet : e.State → State h.assets)
    (k : KeepsRequest e) (f : Dispatches e h pallet) (x : Call) where
  -- The dispatch of the call at the contract's address, on the pallet's state.
  abbrev pub run : e.State → Result ErrorWithPostInfo (Option Weight) × State h.assets
  run s = dispatch h.assets h.weights (f.signed (e.address s)) x (pallet s)

  -- The status code of a finished dispatch.
  finish-code :
      {A : Type 0} (r : Result ErrorWithPostInfo A) (s : e.State)
      → version e s ≡ 0
      → finish e (dispatching e h) (without_info r) s ≡ (ok (converging (code_of r)), s)
  unfolding finish dispatching convert_error try_from_error status_code
  finish-code (ok a) s v = refl
  finish-code (err x) s v = rw (v, convert_error, try_from_error) refl

  -- A call that is paid for runs, and its result is its status code.
  charged-code :
      (c : e.ChargedAmount) (s : e.State)
      → version e s ≡ 0
      → (env : e.State) × (dispatch_charged e (dispatching e h) (RuntimeCall.fungibles x) c s
          ≡ (ok (converging (code_of (run s).0)), env))
        × (pallet env ≡ committed (run s) (pallet s))
  unfolding dispatch_charged run_dispatch dispatching version
  charged-code c s v =
      let called = RuntimeCall.fungibles x in
      let allowed = (contains_call_iff {Other = Other} called).1 (x, refl) in
      let (outcome, t) = h.dispatch contains_call (e.address s) called s in
      let actual = h.extract_actual_weight outcome (h.dispatch_weight called) in
      let env = e.adjust_weight c actual t in
      let same_request =
        k.adjust_keeps c actual t ∙ f.request_stays contains_call (e.address s) called s in
      (
        env,
        ap (λ r. finish e (dispatching e h) r env)
              (f.result_is contains_call (e.address s) x s allowed)
            ∙ finish-code (run s).0 env (ap (λ id. id / 256 % 256) same_request ∙ v),
        f.keeps.adjust_keeps c actual t ∙ f.state_is contains_call (e.address s) x s allowed,
      )

  -- Charging keeps the dispatch of the call what it is.
  run-charge : (w : Weight) (s : e.State) → run (e.charge_weight w s).1 ≡ run s
  run-charge w s =
      ap (λ who. dispatch h.assets h.weights (f.signed who) x (pallet (e.charge_weight w s).1))
        (k.address_keeps w s)
      ∙ ap (dispatch h.assets h.weights (f.signed (e.address s)) x) (f.keeps.charge_keeps w s)

  committed-charge :
      (w : Weight) (s : e.State)
      → committed (run (e.charge_weight w s).1) (pallet (e.charge_weight w s).1)
        ≡ committed (run s) (pallet s)
  committed-charge w s =
      ap (λ r. committed r (pallet (e.charge_weight w s).1)) (run-charge w s)
      ∙ ap (committed (run s)) (f.keeps.charge_keeps w s)

  -- A request for the call that is received and whose overhead is paid for.
  dispatch_call-code :
      (s : e.State) (c₁ c₂ : e.ChargedAmount)
      → CallInRange h.scale x
      → Receives e (build_dispatch (sent h.scale x).0) (sent h.scale x).1 s
      → (e.charge_weight (h.seal_return (e.in_len s)) s).0 ≡ ok c₁
      → (e.charge_weight
          (h.dispatch_weight (RuntimeCall.fungibles x))
          (e.charge_weight (h.seal_return (e.in_len s)) s).1).0
        ≡ ok c₂
      → (env : e.State) × (dispatch_call e (dispatching e h) s
          ≡ (ok (converging (code_of (run s).0)), env))
        × (pallet env ≡ committed (run s) (pallet s))
  unfolding dispatching into_call decodes_as
  dispatch_call-code s c₁ c₂ r got paid₁ paid₂ =
      let w = h.seal_return (e.in_len s) in
      let t = (e.charge_weight w s).1 in
      let w' = h.dispatch_weight (RuntimeCall.fungibles x) in
      let d = dispatching e h in
      let got' = charge-Receives e k _ _ w s got in
      let decoded =
        decode_paid e d.decoder s c₁ paid₁
        ∙ sym (ap (λ n. decode_input e d.decoder n t) (k.in_len_keeps w s))
        ∙ (sent-decoded e h x r t got').1 in
      let u = (e.charge_weight w' t).1 in
      let first =
        version_of_request e (sent h.scale x).0 u (sent-lt h.scale x)
          (k.func_id_keeps w' t ∙ got'.func_id) in
      let (env, runs, kept) = charged-code c₂ u first in
      (
        env,
        dispatch_call_paid e h d s t (VersionedRuntimeCall.v0 (RuntimeCall.fungibles x)) c₂ decoded
              paid₂
            ∙ runs
            ∙ ap (λ r. (ok (converging (code_of r.0)), env)) (run-charge w' t ∙ run-charge w s),
        kept ∙ committed-charge w' t ∙ committed-charge w s,
      )

  -- A request of the contract's library for the call, if it is paid for, runs the call.
  pub call_api-code :
      (s : e.State)
      → CallInRange h.scale x
      → Receives e (build_dispatch (sent h.scale x).0) (sent h.scale x).1 s
      → Pays e h x s
      → (env : e.State) × (call_api e h s ≡ (ok (converging (code_of (run s).0)), env))
        × (pallet env ≡ committed (run s) (pallet s))
  unfolding call_api call functions execute_tuple dispatch_function
  call_api-code s r got pays =
      let w = h.seal_debug_message (e.in_len s) in
      let t = (e.charge_weight w s).1 in
      let got' = charge-Receives e k _ _ w s got in
      let matched = (sent-decoded e h x r t got').0 in
      let (env, runs, kept) =
        dispatch_call-code t pays.input.0 pays.call.0 r got' pays.input.1 pays.call.1 in
      (
        env,
        rw (pays.overhead.1, matched)
            (runs ∙ ap (λ r. (ok (converging (code_of r.0)), env)) (run-charge w s)),
        kept ∙ committed-charge w s,
      )
