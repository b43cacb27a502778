-- ===== src/Chain/Answers.antt =====
-- extension/src/functions.rs, followed on a read that is paid for.
use pop_node.Prelude.{
  ℕ, ◌<◌, ◌%◌, ◌≡◌, refl, ap, sym, ◌∙◌, arith, true, false, ok, none, List, length,
}
use pop_node.Frame.{converging}
use pop_node.Extension.{call}
use pop_node.Extension.Environment.{Environment}
use pop_node.Extension.Decoding.{decode, decode_input}
use pop_node.Extension.Functions.{
  ReadState, read_state, read_charged, return_bytes, execute_tuple, dispatch_function,
  read_function,
}
use pop_node.Extension.Filtering.{read_state-chain}
use pop_node.Api.Extension.{version, try_convert, decodes_as}
use pop_node.Api.Fungibles.Types.{Read}
use pop_node.Api.Fungibles.Reads.{weight}
use pop_node.Api.Fungibles.State.{State}
use pop_node.Runtime.Calls.{RuntimeRead, runtime_weight, runtime_read, encode_result}
use pop_node.Runtime.Filter.{contains_read}
use pop_node.Runtime.Versioning.{VersionedRuntimeRead, into_read, try_from_result, result_bytes}
use pop_node.Runtime.Config.{Host, reading, functions, call_api}
use pop_node.PopApi
use pop_node.PopApi.{build_extension_method}
use pop_node.PopApi.Receiving.{Receives}
use pop_node.PopApi.Fungibles.{build_read_state}
use pop_node.PopApi.Queries.{asked, asked-lt, asked-decoded, ReadInRange}
use pop_node.Chain.{KeepsRequest, Dispatches, PaysRead, bytes_of}
use pop_node.Chain.Steps.{charge-Receives, decode_paid}

version_of_read :
    (e : Environment) (k : ℕ) (s : e.State)
    → k < 256
    → e.func_id s ≡ build_read_state k % 65536
    → version e s ≡ 0
unfolding version build_read_state PopApi.build_read_state build_extension_method
version_of_read e k s lt p = omega (arith, p)

module _ (e : Environment) {Output Key Found : Type 0} (f : ReadState e Output Key Found) where
  -- What a read that is decoded and paid for ends with.
  read_state_paid :
      (s t : e.State) (out : Output) (c : e.ChargedAmount)
      → decode e f.decoder s ≡ (ok out, t)
      → (e.charge_weight (f.weight (f.into out)) t).0 ≡ ok c
      → read_state e f s
        ≡ read_charged e f (f.into out) (e.charge_weight (f.weight (f.into out)) t).1
  unfolding read_state
  read_state_paid s t out c decoded paid = rw (decoded, paid) refl

  read_charged_paid :
      (key : Key) (s : e.State) (bytes : List ℕ) (c : e.ChargedAmount)
      → f.filter key ≡ true
      → f.try_convert (f.read key s) s ≡ ok bytes
      → (e.charge_weight (f.seal_input (length bytes)) s).0 ≡ ok c
      → let t = (e.charge_weight (f.seal_input (length bytes)) s).1 in
        (e.write bytes false none t).0 ≡ ok tt
        → read_charged e f key s ≡ (ok (converging 0), (e.write bytes false none t).1)
  unfolding read_charged return_bytes
  read_charged_paid key s bytes c allowed converts paid wrote =
      rw (allowed, converts, paid, wrote) refl

module _ (e : Environment) {Other : Type 0} (h : Host e Other) (pallet : e.State → State h.assets)
    (k : KeepsRequest e) (f : Dispatches e h pallet) (x : Read) where
  contains_read-all : (key : RuntimeRead) → contains_read key ≡ true
  unfolding contains_read
  contains_read-all (RuntimeRead.fungibles (Read.total_supply t)) = refl
  contains_read-all (RuntimeRead.fungibles _) = refl

  converted :
      (s : e.State)
      → version e s ≡ 0
      → (reading e h).try_convert ((reading e h).read (RuntimeRead.fungibles x) s) s
        ≡ ok (bytes_of e h x (pallet s))
  unfolding reading try_convert try_from_result runtime_read result_bytes encode_result
  converted s v = rw (v, f.reads s) refl

  -- A request of the contract's library for the read, whose overhead is paid for.
  read_state-written :
      (s : e.State) (st : State h.assets)
      → pallet s ≡ st
      → ReadInRange h.scale x
      → Receives e (build_read_state (asked h.scale x).0) (asked h.scale x).1 s
      → (c₁ c₂ c₃ : e.ChargedAmount)
      → let t = (e.charge_weight (h.seal_return (e.in_len s)) s).1 in
        let u = (e.charge_weight (weight h.weights x) t).1 in
        let bytes = bytes_of e h x st in
        let v = (e.charge_weight (h.seal_input (length bytes)) u).1 in
        (e.charge_weight (h.seal_return (e.in_len s)) s).0 ≡ ok c₁
        → (e.charge_weight (weight h.weights x) t).0 ≡ ok c₂
        → (e.charge_weight (h.seal_input (length bytes)) u).0 ≡ ok c₃
        → (e.write bytes false none v).0 ≡ ok tt
        → read_state e (reading e h) s ≡ (ok (converging 0), (e.write bytes false none v).1)
  unfolding reading into_read decodes_as runtime_weight
  read_state-written s st is r got c₁ c₂ c₃ p₁ p₂ p₃ wrote =
      let q = reading e h in
      let key = RuntimeRead.fungibles x in
      let w = h.seal_return (e.in_len s) in
      let t = (e.charge_weight w s).1 in
      let u = (e.charge_weight (weight h.weights x) t).1 in
      let got' = charge-Receives e k _ _ w s got in
      let first =
        version_of_read e (asked h.scale x).0 u (asked-lt h.scale x)
          (k.func_id_keeps (weight h.weights x) t ∙ got'.func_id) in
      let same = f.keeps.charge_keeps (weight h.weights x) t ∙ f.keeps.charge_keeps w s ∙ is in
      read_state_paid e q s t (VersionedRuntimeRead.v0 key) c₂
        (decode_paid e q.decoder s c₁ p₁
          ∙ sym (ap (λ n. decode_input e q.decoder n t) (k.in_len_keeps w s))
          ∙ (asked-decoded e h x r t got').2)
        p₂
      ∙ read_charged_paid e q key u (bytes_of e h x st) c₃ (contains_read-all key)
          (converted u first ∙ ap (λ y. ok (bytes_of e h x y)) same) p₃ wrote

  -- A request of the contract's library for the read, if it is paid for, is answered with the bytes
  -- of what the pallet reads, and leaves the pallet as it was.
  pub call_api-written :
      (s : e.State) (st : State h.assets)
      → pallet s ≡ st
      → ReadInRange h.scale x
      → Receives e (build_read_state (asked h.scale x).0) (asked h.scale x).1 s
      → PaysRead e h x (bytes_of e h x st) s
      → (before env : e.State) × (call_api e h s ≡ (ok (converging 0), env))
        × (e.write (bytes_of e h x st) false none before ≡ (ok tt, env))
        × (pallet env ≡ st)
  unfolding call_api call functions execute_tuple dispatch_function read_function
  call_api-written s st is r got pays =
      let w = h.seal_debug_message (e.in_len s) in
      let t = (e.charge_weight w s).1 in
      let got' = charge-Receives e k _ _ w s got in
      let (unmatched, matched, _) = asked-decoded e h x r t got' in
      let u =
        (e.charge_weight (weight h.weights x)
          (e.charge_weight (h.seal_return (e.in_len t)) t).1).1 in
      let bytes = bytes_of e h x st in
      let v = (e.charge_weight (h.seal_input (length bytes)) u).1 in
      let env = (e.write bytes false none v).1 in
      let runs =
        read_state-written t st (f.keeps.charge_keeps w s ∙ is) r got' pays.input.0 pays.read.0
          pays.output.0.0 pays.input.1 pays.read.1 pays.output.0.1 pays.output.1 in
      (
        v,
        env,
        rw (pays.overhead.1, unmatched, matched) runs,
        (λ i. (pays.output.1 i, env)),
        ap (λ r. pallet r.1) (sym runs)
            ∙ read_state-chain e pallet f.keeps (reading e h) t
            ∙ f.keeps.charge_keeps w s
            ∙ is,
      )
