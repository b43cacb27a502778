-- ===== src/Examples/Extension.antt =====
-- The chain extension (extension/src) with the runtime's functions on the machine.
use pop_node.Prelude.{
  ◌+◌, ◌*◌, ◌≡◌, refl, ap, sym, ◌∙◌, Bool-cases, inl, inr, arith, [], ◌∷◌, false, ok, err,
}
use pop_node.Frame.{converging}
use pop_node.Extension
use pop_node.Extension.Functions.{
  dispatch_function, read_function, execute_tuple, dispatch_call, read_state, read_charged,
  return_bytes,
}
use pop_node.Extension.Decoding.{decode, decode_input}
use pop_node.Extension.Weights.{DispatchLaws}
use pop_node.Extension.Filtering.{dispatch_call_refused}
use pop_node.Api.Extension.{identified_by_first_byte, version, prepend, decodes_as, try_convert}
use pop_node.Api.Fungibles.Types.{Call}
use pop_node.Api.Fungibles.Codec.{decode_call, call_fields, decode_read, read_fields}
use pop_node.Api.Fungibles.Reads.{read, encode, weight}
use pop_node.Runtime.Config.{call_api, dispatching, reading}
use pop_node.Runtime.Metering.{Costs, call_api-Costs}
use pop_node.Runtime.Calls.{
  RuntimeCall, decode_runtime_call, decode_runtime_read, runtime_read, runtime_weight,
  encode_result,
}
use pop_node.Runtime.Filter.{
  contains_call, contains_read, base_call_filter, filtered_calls, is_api_call,
}
use pop_node.Runtime.Versioning.{
  VersionedRuntimeCall, into_call, into_read, decode_versioned_call, decode_versioned_read,
  try_from_result, result_bytes,
}
use pop_node.Examples.Machine
use pop_node.Examples.Machine.{Machine, machine, meter, keeps, started}
use pop_node.Examples.Codecs.{read_u32}
use pop_node.Examples.Runtime.{
  Remark, host, run_call, refuses, remarked, remark_call, call_filtered,
}

-- A transfer of 9 of token 7 to account 2.
abbrev transferring : Machine
transferring = started 0 (150 + 256 * 3) (7 ∷ 0 ∷ 0 ∷ 0 ∷ 2 ∷ 0 ∷ 0 ∷ 0 ∷ 9 ∷ 0 ∷ 0 ∷ 0 ∷ [])

abbrev transfer_call : VersionedRuntimeCall Remark
transfer_call = VersionedRuntimeCall.v0 (RuntimeCall.fungibles (Call.transfer 7 2 9))

transfer_decoded :
    (decode machine (dispatching machine host).decoder transferring).0 ≡ ok transfer_call
unfolding dispatching decode decode_input decodes_as prepend decode_versioned_call
    decode_runtime_call decode_call call_fields read_u32
transfer_decoded = refl

remark_decoded : (decode machine (dispatching machine host).decoder remarked).0 ≡ ok remark_call
unfolding dispatching decode decode_input decodes_as prepend decode_versioned_call
    decode_runtime_call
remark_decoded = refl

dispatched :
    (call : RuntimeCall Remark) (s : Machine) → (run_call contains_call 9 call s).1.used ≡ s.used
dispatched call s = elim (Bool-cases (contains_call call)) [ inl p ↦ rw p refl | inr p ↦ rw p refl ]

dispatch_laws : DispatchLaws machine meter (dispatching machine host)
unfolding dispatching
dispatch_laws = record {
  dispatch_spends = λ call s. dispatched call s;
  actual_ref_time = λ o w. omega arith;
  actual_proof_size = λ o w. omega arith;
}

-- The balance of account 1 of token 7 is asked for.
abbrev asking_balance : Machine
asking_balance = started 1 (150 + 256 * 1) (7 ∷ 0 ∷ 0 ∷ 0 ∷ 1 ∷ 0 ∷ 0 ∷ 0 ∷ [])

balance_answered : (call_api machine host asking_balance).0 ≡ ok (converging 0)
unfolding call_api Extension.call execute_tuple reading read_function identified_by_first_byte
    dispatch_function read_state read_charged return_bytes decode decode_input decodes_as prepend
    decode_versioned_read decode_runtime_read decode_read read_fields read_u32 contains_read
    runtime_read runtime_weight weight read into_read try_convert try_from_result result_bytes
    encode_result encode version
balance_answered = refl

call_api-Costs_example :
    Costs machine host meter asking_balance
      (machine.charge_weight
        (host.seal_debug_message (machine.in_len asking_balance))
        asking_balance).1
      (converging 0)
      (call_api machine host asking_balance).1
call_api-Costs_example =
    call_api-Costs machine host meter dispatch_laws asking_balance
      (λ i. (balance_answered i, (call_api machine host asking_balance).1))

remark_refused :
    (out : VersionedRuntimeCall Remark)
    → (decode machine (dispatching machine host).decoder remarked).0 ≡ ok out
    → (dispatching machine host).filter ((dispatching machine host).into out) ≡ false
unfolding dispatching into_call contains_call base_call_filter filtered_calls is_api_call
remark_refused out p =
    ap (λ r. elim r [ ok o ↦ contains_call (into_call o) | err x ↦ false ]) (sym p ∙ remark_decoded)

dispatch_call_refused_example :
    (u : Machine) × (u.chain ≡ 0)
    × (dispatch_call machine (dispatching machine host) remarked
        ≡ ((dispatching machine host).convert call_filtered u, u))
unfolding dispatching
dispatch_call_refused_example =
    dispatch_call_refused machine (λ s. s.chain) keeps (dispatching machine host) refuses remarked
      remark_call (Machine.weight 10) remark_decoded refl
      (remark_refused remark_call remark_decoded)

-- A read of the total supply of token 7.
abbrev asking : Machine
asking = started 1 150 (7 ∷ 0 ∷ 0 ∷ 0 ∷ [])

abbrev answered : Machine
answered = (read_state machine (reading machine host) asking).1

asked : read_state machine (reading machine host) asking ≡ (ok (converging 0), answered)
unfolding reading read_state read_charged return_bytes decode decode_input decodes_as prepend
    decode_versioned_read decode_runtime_read decode_read read_fields read_u32 into_read
    runtime_read runtime_weight weight read contains_read try_convert try_from_result result_bytes
    encode_result encode version
asked = refl
