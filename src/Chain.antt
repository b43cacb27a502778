-- ===== src/Chain.antt =====
-- The chain between a contract's library and the fungibles pallet: what pallet-contracts does with a
-- call of the chain extension (extension/src/environment.rs names its part of the interface), and what
-- FRAME does with a dispatch of the runtime (runtime/devnet/src/config/api/mod.rs).
pub mod Creators
pub mod Steps
pub mod Answers
pub mod Calls
pub mod Approvals
pub mod Reads
pub mod Sessions
pub mod Tokens
pub mod Failures
use pop_node.Prelude.{
  committed, ℕ, ◌≡◌, List, Bool, true, false, ok, Result, Option, none, length, map_ok, map_err,
}
use pop_node.Frame.{AccountId, Weight, DispatchError, converging}
use pop_node.Extension.Environment.{Environment}
use pop_node.Extension.Filtering.{KeepsChain}
use pop_node.Api.Fungibles.Types.{Call, Read, ErrorWithPostInfo}
use pop_node.Api.Fungibles.Reads.{weight, read, encode}
use pop_node.Api.Fungibles.State.{State}
use pop_node.Api.Fungibles.Dispatch.{dispatch}
use pop_node.Runtime.Calls.{RuntimeCall}
use pop_node.Runtime.Config.{Host, call_api}
use pop_node.Primitives.{to_u32}
use pop_node.Runtime.Versioning.{v0_error}
use pop_node.PopApi.Ink.{Ink}
use pop_node.PopApi.Receiving.{Receives}

-- What pallet-contracts documents: charging and adjusting weight leave the request alone.
pub record KeepsRequest (e : Environment) : Type 0 where
  pub func_id_keeps : (w : Weight) (s : e.State) → e.func_id (e.charge_weight w s).1 ≡ e.func_id s
  pub ext_id_keeps : (w : Weight) (s : e.State) → e.ext_id (e.charge_weight w s).1 ≡ e.ext_id s
  pub in_len_keeps : (w : Weight) (s : e.State) → e.in_len (e.charge_weight w s).1 ≡ e.in_len s
  pub address_keeps : (w : Weight) (s : e.State) → e.address (e.charge_weight w s).1 ≡ e.address s
  pub read_keeps :
      (n : ℕ) (w : Weight) (s : e.State) → e.read n (e.charge_weight w s).1 ≡ e.read n s
  pub adjust_keeps :
      (c : e.ChargedAmount) (w : Weight) (s : e.State)
      → e.func_id (e.adjust_weight c w s) ≡ e.func_id s

-- The result of a dispatch, without the weights.
abbrev pub without_info :
    {A : Type 0} → Result ErrorWithPostInfo A → Result DispatchError (Unit {0})
without_info r = map_ok (λ _. tt) (map_err (λ x. x.error) r)

module _ (e : Environment) {Other : Type 0} (h : Host e Other) where
  -- What FRAME documents: a call that the origin's filter lets through runs as the function that it
  -- names, with the signed origin of the account, and a failure is rolled back. `pallet` is the
  -- state of the fungibles pallet within the environment's.
  pub record Dispatches (pallet : e.State → State h.assets) : Type 0 where
    pub keeps : KeepsChain e pallet
    pub signed : AccountId → h.assets.Origin
    pub signed_by : (who : AccountId) → h.assets.ensure_signed (signed who) ≡ ok who
    pub reads : (s : e.State) → h.assets_in s ≡ (pallet s).assets
    pub request_stays :
        (filter : RuntimeCall Other → Bool) (who : AccountId) (call : RuntimeCall Other)
        (s : e.State)
        → e.func_id (h.dispatch filter who call s).1 ≡ e.func_id s
    pub result_is :
        (filter : RuntimeCall Other → Bool) (who : AccountId) (x : Call) (s : e.State)
        → filter (RuntimeCall.fungibles x) ≡ true
        → (h.dispatch filter who (RuntimeCall.fungibles x) s).0.result
          ≡ without_info (dispatch h.assets h.weights (signed who) x (pallet s)).0
    pub state_is :
        (filter : RuntimeCall Other → Bool) (who : AccountId) (x : Call) (s : e.State)
        → filter (RuntimeCall.fungibles x) ≡ true
        → pallet (h.dispatch filter who (RuntimeCall.fungibles x) s).1
          ≡ committed (dispatch h.assets h.weights (signed who) x (pallet s)) (pallet s)

  -- What pallet-contracts documents of a contract's call of the chain extension: the extension runs
  -- in an environment that receives the request; where it converges, the contract gets the status
  -- code and what was written, the chain is as the extension left it, and the contract keeps its
  -- address.
  pub record Executes (ink : Ink) (pallet : e.State → State h.assets) : Type 0 where
    pub enter : ℕ → List ℕ → ink.State → e.State
    pub leave : ink.State → e.State → ink.State
    pub written : e.State → List ℕ
    pub ledger : ink.State → State h.assets
    pub address : ink.State → AccountId
    pub receives :
        (method : ℕ) (input : List ℕ) (s : ink.State)
        → Receives e method input (enter method input s)
    pub enter_keeps :
        (method : ℕ) (input : List ℕ) (s : ink.State) → pallet (enter method input s) ≡ ledger s
    pub enter_address :
        (method : ℕ) (input : List ℕ) (s : ink.State) → e.address (enter method input s) ≡ address s
    pub leave_keeps : (s : ink.State) (env : e.State) → ledger (leave s env) ≡ pallet env
    pub leave_address : (s : ink.State) (env : e.State) → address (leave s env) ≡ address s
    pub writes :
        (bytes : List ℕ) (env env' : e.State)
        → e.write bytes false none env ≡ (ok tt, env')
        → written env' ≡ bytes
    pub converges :
        (method : ℕ) (input : List ℕ) (s : ink.State) (code : ℕ) (env : e.State)
        → call_api e h (enter method input s) ≡ (ok (converging code), env)
        → ink.invoke method input s ≡ ((code, written env), leave s env)
    pub request : KeepsRequest e

  -- A weight that the gas meter can be charged.
  abbrev pub IsPaid : Weight → e.State → Type 0
  IsPaid w s = (c : e.ChargedAmount) × ((e.charge_weight w s).0 ≡ ok c)

  -- The contract can pay for a call: for the overhead, for its input and for the dispatch.
  pub record Pays (x : Call) (s : e.State) : Type 0 where
    pub overhead : IsPaid (h.seal_debug_message (e.in_len s)) s
    pub input :
        let t = (e.charge_weight (h.seal_debug_message (e.in_len s)) s).1 in
        IsPaid (h.seal_return (e.in_len t)) t
    pub call :
        let t = (e.charge_weight (h.seal_debug_message (e.in_len s)) s).1 in
        IsPaid
          (h.dispatch_weight (RuntimeCall.fungibles x))
          (e.charge_weight (h.seal_return (e.in_len t)) t).1

module _ (e : Environment) {Other : Type 0} (h : Host e Other) where
  -- The bytes of what the pallet reads.
  abbrev pub bytes_of : Read → State h.assets → List ℕ
  bytes_of x st = encode h.scale (read h.assets x st.assets)

  -- The contract can pay for a read whose result has these bytes, and has room for them: the
  -- overhead, the input, the read and the bytes.
  pub record PaysRead (x : Read) (bytes : List ℕ) (s : e.State) : Type 0 where
    pub overhead : IsPaid e h (h.seal_debug_message (e.in_len s)) s
    pub input :
        let t = (e.charge_weight (h.seal_debug_message (e.in_len s)) s).1 in
        IsPaid e h (h.seal_return (e.in_len t)) t
    pub read :
        let t = (e.charge_weight (h.seal_debug_message (e.in_len s)) s).1 in
        IsPaid e h (weight h.weights x) (e.charge_weight (h.seal_return (e.in_len t)) t).1
    pub output :
        let t = (e.charge_weight (h.seal_debug_message (e.in_len s)) s).1 in
        let u =
          (e.charge_weight
            (weight h.weights x)
            (e.charge_weight (h.seal_return (e.in_len t)) t).1).1 in
        IsPaid e h (h.seal_input (length bytes)) u
        × ((e.write bytes false none (e.charge_weight (h.seal_input (length bytes)) u).1).0 ≡ ok tt)

-- The status code of a dispatch: 0, or that of the error as version 0 names it.
abbrev pub code_of : {A : Type 0} → Result ErrorWithPostInfo A → ℕ
code_of (Result.ok a) = 0
code_of (Result.err x) = to_u32 (v0_error x.error)
