-- ===== src/Examples/Runtime.antt =====
-- The runtime's configuration of the chain extension (runtime/devnet/src/config/api/mod.rs) on the
-- machine. A dispatch that the filter lets through counts up the machine's chain.
use pop_node.Prelude.{
  sym, ◌==◌, ==_ne, List, ℕ, suc, ◌+◌, ◌≡◌, ◌≢◌, ◌↔◌, refl, arith, [], ◌∷◌, true, false, Bool, none,
  some, ◌*◌, Option, ok, err, if◌then◌else◌,
}
use pop_node.Primitives.{from_u32}
use pop_node.Frame.{AccountId, Weight, DispatchError, DispatchOutcome, converging}
use pop_node.Extension.Filtering.{KeepsChain, RefusesFiltered}
use pop_node.Extension.Decoding.{decode, decode_input}
use pop_node.Api.Extension.{version, prepend, decodes_as}
use pop_node.Runtime.Calls.{RuntimeCall, BalancesCall, decode_runtime_call}
use pop_node.Runtime.Filter.{contains_call}
use pop_node.Runtime.Versioning.{VersionedRuntimeCall, into_call, decode_versioned_call, v0_error}
use pop_node.Runtime.Config.{Host, dispatching, call_api}
use pop_node.Runtime.Allowed.{IsFungibles, contains_call_iff, call_api-chain}
use pop_node.Runtime.Errors.{convert-version0, IsOther}
use pop_node.Runtime.Unanswered.{ids, unknown_version, unknown_pallet}
use pop_node.Runtime.Pallets.{Pallet, devnet_index}
use pop_node.Examples.Machine.{Machine, machine, keeps, weight, started}
use pop_node.Examples.Codecs.{codecs}
use pop_node.Examples.Ledger.{ledger, weights, opened}

-- The runtime has one call besides: `remark`, of the pallet with index 1.
pub data Remark : Type 0 where
  remark : Remark

abbrev pub call_filtered : DispatchError
call_filtered =
    DispatchError.module_error 0 (record { byte0 = 5; byte1 = 0; byte2 = 0; byte3 = 0 }) none

abbrev pub run_call :
    {C : Type 0} → (C → Bool) → AccountId → C → Machine → DispatchOutcome × Machine
run_call filter origin call s =
    if filter call
    then (record { actual_weight = none; result = ok tt }, record s { chain = suc s.chain })
    else (record { actual_weight = none; result = err call_filtered }, s)

abbrev pub host : Host machine Remark
host = record {
  scale = codecs;
  others = λ i bytes. if i == 1 then some (RuntimeCall.elsewhere remark, bytes) else none;
  seal_return = λ n. weight n;
  seal_input = λ n. weight n;
  seal_debug_message = λ n. weight n;
  dispatch_weight = λ c. weight 10;
  dispatch = run_call;
  extract_actual_weight = λ o w. w;
  assets = ledger;
  assets_in = λ s. opened;
  weights = weights;
  call_filtered = call_filtered;
}

contains_call_iff_example :
    (contains_call {Other = Remark} (RuntimeCall.balances BalancesCall.force_transfer) ≡ true)
    ↔ IsFungibles {Other = Remark} (RuntimeCall.balances BalancesCall.force_transfer)
contains_call_iff_example = contains_call_iff (RuntimeCall.balances BalancesCall.force_transfer)

-- A failed transfer of pallet-assets: `BalanceLow`.
abbrev balance_low : DispatchError
balance_low =
    DispatchError.module_error 52 (record { byte0 = 0; byte1 = 0; byte2 = 0; byte3 = 0 }) none

abbrev pub transfer_input : Machine
transfer_input = started 0 (150 + 256 * 3) (7 ∷ 0 ∷ 0 ∷ 0 ∷ 2 ∷ 0 ∷ 0 ∷ 0 ∷ 9 ∷ 0 ∷ 0 ∷ 0 ∷ [])

pub first_version : version machine transfer_input ≡ 0
unfolding version
first_version = refl

convert-version0_example :
    (code : ℕ) × ((dispatching machine host).convert balance_low transfer_input
      ≡ ok (converging code))
    × (from_u32 code ≡ v0_error balance_low)
    × ((code ≡ 0) ↔ IsOther balance_low)
convert-version0_example =
    convert-version0 machine host balance_low transfer_input (omega arith, omega arith, omega arith)
      first_version

-- The same with version 1.
abbrev versioned : Machine
versioned = started 256 (150 + 256 * 3) (7 ∷ 0 ∷ 0 ∷ 0 ∷ 2 ∷ 0 ∷ 0 ∷ 0 ∷ 9 ∷ 0 ∷ 0 ∷ 0 ∷ [])

second_version : version machine versioned ≢ 0
unfolding version
second_version = λ p. omega (arith, p)

pub refuses_at :
    (call : RuntimeCall Remark) (origin : AccountId) (s : Machine)
    → (dispatching machine host).filter call ≡ false
    → (w : Option Weight) × ((dispatching machine host).dispatch
          (dispatching machine host).filter
          origin
          call
          s
        ≡ (record { actual_weight = w; result = err call_filtered }, s))
unfolding dispatching
refuses_at call origin s p = (none, rw p refl)

abbrev pub refuses :
    RefusesFiltered machine (λ s. s.chain) keeps (dispatching machine host) call_filtered
refuses = record { refuses = refuses_at }

keeps_ids : KeepsChain machine (ids machine host)
keeps_ids = record {
  charge_keeps = λ w s. refl;
  adjust_keeps = λ c w s. refl;
  write_keeps = λ bytes skip w s. refl;
}

unknown_version_example :
    ((x : DispatchError) × ((call_api machine host versioned).0 ≡ err x))
    × ((call_api machine host versioned).1.chain ≡ 0)
unknown_version_example =
    unknown_version machine host keeps_ids (λ s. s.chain) keeps versioned refuses second_version

-- The request of tests/contracts/filtered-call/lib.rs: the function 0 of the chain extension 909, whose
-- pallet byte is 141, with the call `System::remark`.
abbrev filtered : Machine
filtered = started 0 909 (0 ∷ 0 ∷ 32 ∷ 0 ∷ 0 ∷ 0 ∷ 0 ∷ 0 ∷ 0 ∷ 0 ∷ 0 ∷ [])

none_besides :
    (i : ℕ) (bytes : List ℕ) → ((p : Pallet) → devnet_index p ≢ i) → host.others i bytes ≡ none
unfolding devnet_index
none_besides i bytes missing = rw (==_ne i 1 (λ q. missing Pallet.parachain_system (sym q))) refl

no_pallet_141 : (p : Pallet) → devnet_index p ≢ 141
unfolding devnet_index
no_pallet_141 p q = ground arith

unknown_pallet_example :
    ((x : DispatchError) × ((call_api machine host filtered).0 ≡ err x))
    × ((call_api machine host filtered).1.chain ≡ 0)
unknown_pallet_example =
    unknown_pallet machine host keeps_ids (λ s. s.chain) keeps filtered refuses none_besides
      no_pallet_141

-- A call of another pallet.
abbrev pub remarked : Machine
remarked = started 0 (1 + 256 * 3) (7 ∷ [])

abbrev pub remark_call : VersionedRuntimeCall Remark
remark_call = VersionedRuntimeCall.v0 (RuntimeCall.elsewhere remark)

-- Once the overhead is charged.
abbrev charged : Machine
charged = record remarked { used = weight 1 }

remark_decoded : (decode machine (dispatching machine host).decoder charged).0 ≡ ok remark_call
unfolding dispatching decode decode_input decodes_as prepend decode_versioned_call
    decode_runtime_call
remark_decoded = refl

no-IsFungibles :
    (out : VersionedRuntimeCall Remark)
    → (decode machine (dispatching machine host).decoder charged).0 ≡ ok out
    → ¬ IsFungibles (into_call out)
unfolding into_call
no-IsFungibles (VersionedRuntimeCall.v0 call) p (x, q) = absurd (cc (remark_decoded, p, q))

call_api-chain_example : (call_api machine host remarked).1.chain ≡ 0
call_api-chain_example =
    call_api-chain machine host (λ s. s.chain) keeps remarked refuses
      (λ z out p. no-IsFungibles out p)
