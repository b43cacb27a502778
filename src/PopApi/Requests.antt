-- ===== src/PopApi/Requests.antt =====
-- From a contract's call to the runtime: pop-api/src/v0/fungibles/mod.rs against
-- runtime/devnet/src/config/api/mod.rs.
use mathlib.Core.Option
use pop_node.PopApi.Receiving.{Receives, prepend-Receives}
use pop_node.Prelude.{
  ℕ, ◌<◌, ◌≡◌, refl, ap, ◌∙◌, arith, true, List, ◌++◌, ◌∷◌, [], some, ok, Exec, Result, err, ==_iff,
}
use pop_node.Extension.Environment.{Environment}
use pop_node.Extension.Decoding.{decode_input, decode_input-eq_ok}
use pop_node.Api.Codec.{Scale, Reader, pure, >>=-eq-some}
use pop_node.Api.Extension.{decodes_as, func_id, identified_by_first_byte}
use pop_node.Api.Fungibles.Types.{Call}
use pop_node.Api.Fungibles.Codec.{decode_call, call_fields}
use pop_node.Runtime.Calls.{RuntimeCall, decode_runtime_call}
use pop_node.Runtime.Versioning.{VersionedRuntimeCall, decode_versioned_call}
use pop_node.Runtime.Config.{Host, dispatching, value}
use pop_node.PopApi.{StatusCode, from_status_code, decode_output, build_extension_method}
use pop_node.PopApi
use pop_node.PopApi.Ink.{Ink, answer}
use pop_node.PopApi.Fungibles
use pop_node.PopApi.Fungibles.{build_dispatch, build_read_state, send, nothing, owned, amount}
use pop_node.PopApi.Fields.{
  token_fields-decode, amount_fields-decode, transfer_from_fields-decode, metadata_fields-decode,
}

module _ (c : Scale) where
  -- The arguments have values of their types.
  abbrev pub CallInRange : Call → Type 0
  CallInRange (Call.transfer t who v) =
      c.token.InRange t × c.account.InRange who × c.balance.InRange v
  CallInRange (Call.transfer_from t from to v) =
      c.token.InRange t × c.account.InRange from × c.account.InRange to × c.balance.InRange v
  CallInRange (Call.approve t who v) =
      c.token.InRange t × c.account.InRange who × c.balance.InRange v
  CallInRange (Call.increase_allowance t who v) =
      c.token.InRange t × c.account.InRange who × c.balance.InRange v
  CallInRange (Call.decrease_allowance t who v) =
      c.token.InRange t × c.account.InRange who × c.balance.InRange v
  CallInRange (Call.create t who v) =
      c.token.InRange t × c.account.InRange who × c.balance.InRange v
  CallInRange (Call.start_destroy t) = c.token.InRange t
  CallInRange (Call.set_metadata t name symbol d) =
      c.token.InRange t × c.bytes.InRange name × c.bytes.InRange symbol × c.byte.InRange d
  CallInRange (Call.clear_metadata t) = c.token.InRange t
  CallInRange (Call.mint t who v) = c.token.InRange t × c.account.InRange who × c.balance.InRange v
  CallInRange (Call.burn t who v) = c.token.InRange t × c.account.InRange who × c.balance.InRange v

  -- What the contract's library sends for a call: the index and the fields.
  abbrev pub sent : Call → ℕ × List ℕ
  sent (Call.transfer t who v) = (3, amount c t who v)
  sent (Call.transfer_from t from to v) = (
    4,
    c.token.encode t ++ (c.account.encode from ++ (c.account.encode to ++ c.balance.encode v)),
  )
  sent (Call.approve t who v) = (5, amount c t who v)
  sent (Call.increase_allowance t who v) = (6, amount c t who v)
  sent (Call.decrease_allowance t who v) = (7, amount c t who v)
  sent (Call.create t who v) = (11, amount c t who v)
  sent (Call.start_destroy t) = (12, c.token.encode t)
  sent (Call.set_metadata t name symbol d) =
      (16, c.token.encode t ++ (c.bytes.encode name ++ (c.bytes.encode symbol ++ c.byte.encode d)))
  sent (Call.clear_metadata t) = (17, c.token.encode t)
  sent (Call.mint t who v) = (19, amount c t who v)
  sent (Call.burn t who v) = (20, amount c t who v)

  pub sent-lt : (x : Call) → (sent x).0 < 256
  sent-lt (Call.transfer t who v) = omega arith
  sent-lt _ = omega arith

  sent-decode : (x : Call) → CallInRange x → call_fields c (sent x).0 (sent x).1 ≡ some (x, [])
  unfolding call_fields
  sent-decode (Call.transfer t who v) h = amount_fields-decode c _ t who v h.0 h.1 h.2
  sent-decode (Call.transfer_from t from to v) h =
      transfer_from_fields-decode c t from to v h.0 h.1 h.2 h.3
  sent-decode (Call.approve t who v) h = amount_fields-decode c _ t who v h.0 h.1 h.2
  sent-decode (Call.increase_allowance t who v) h = amount_fields-decode c _ t who v h.0 h.1 h.2
  sent-decode (Call.decrease_allowance t who v) h = amount_fields-decode c _ t who v h.0 h.1 h.2
  sent-decode (Call.create t who v) h = amount_fields-decode c _ t who v h.0 h.1 h.2
  sent-decode (Call.start_destroy t) h = token_fields-decode c _ t h
  sent-decode (Call.set_metadata t name symbol d) h =
      metadata_fields-decode c t name symbol d h.0 h.1 h.2 h.3
  sent-decode (Call.clear_metadata t) h = token_fields-decode c _ t h
  sent-decode (Call.mint t who v) h = amount_fields-decode c _ t who v h.0 h.1 h.2
  sent-decode (Call.burn t who v) h = amount_fields-decode c _ t who v h.0 h.1 h.2

  module _ (ink : Ink) where
    -- The function of the contract's library that is named like the call.
    abbrev pub send_call : Call → Exec StatusCode ink.State (Unit {0})
    send_call (Call.transfer t to v) = Fungibles.transfer c ink t to v
    send_call (Call.transfer_from t from to v) = Fungibles.transfer_from c ink t from to v
    send_call (Call.approve t d v) = Fungibles.approve c ink t d v
    send_call (Call.increase_allowance t d v) = Fungibles.increase_allowance c ink t d v
    send_call (Call.decrease_allowance t d v) = Fungibles.decrease_allowance c ink t d v
    send_call (Call.create t admin m) = Fungibles.create c ink t admin m
    send_call (Call.start_destroy t) = Fungibles.start_destroy c ink t
    send_call (Call.set_metadata t name symbol d) = Fungibles.set_metadata c ink t name symbol d
    send_call (Call.clear_metadata t) = Fungibles.clear_metadata c ink t
    send_call (Call.mint t who v) = Fungibles.mint c ink t who v
    send_call (Call.burn t who v) = Fungibles.burn c ink t who v

    send_call-sent :
        (x : Call) → send_call x ≡ send c ink (build_dispatch (sent x).0) (sent x).1 nothing
    unfolding Fungibles.transfer Fungibles.transfer_from Fungibles.approve
        Fungibles.increase_allowance Fungibles.decrease_allowance Fungibles.create
        Fungibles.start_destroy Fungibles.set_metadata Fungibles.clear_metadata Fungibles.mint
        Fungibles.burn
    send_call-sent (Call.transfer t to v) = refl
    send_call-sent _ = refl

discard_unit :
    {E : Type 0} (r : Result E (Unit {0})) → elim r [ err x ↦ err x | ok done ↦ ok tt ] ≡ r
discard_unit (ok done) = refl
discard_unit (err x) = refl

answer-nothing :
    (code : ℕ) (bytes : List ℕ)
    → answer from_status_code (decode_output nothing) (code, bytes) ≡ from_status_code code
unfolding decode_output
answer-nothing code bytes = discard_unit (from_status_code code)

send-nothing :
    (c : Scale) (ink : Ink) (method : ℕ) (input : List ℕ) (s : ink.State)
    → send c ink method input nothing s
      ≡ (from_status_code (ink.invoke method input s).0.0, (ink.invoke method input s).1)
unfolding send
send-nothing c ink method input s =
    ink.call_invokes method input from_status_code (decode_output nothing) s
    ∙ ap (λ r. (r, (ink.invoke method input s).1))
        (answer-nothing (ink.invoke method input s).0.0 (ink.invoke method input s).0.1)

decode_versioned-sent :
    (c : Scale) {Other : Type 0} (others : ℕ → Reader (RuntimeCall Other)) (x : Call)
    → CallInRange c x
    → value (decode_versioned_call c others) (0 ∷ 150 ∷ (sent c x).0 ∷ (sent c x).1)
      ≡ some (VersionedRuntimeCall.v0 (RuntimeCall.fungibles x))
unfolding decode_versioned_call decode_runtime_call decode_call
decode_versioned-sent c others x r =
    let called = RuntimeCall.fungibles x in
    ap (Option.map (λ r. r.0)) (
      >>=-eq-some (decode_runtime_call c others) (λ call. pure (VersionedRuntimeCall.v0 call))
        (150 ∷ (sent c x).0 ∷ (sent c x).1) [] called
        (>>=-eq-some (decode_call c) (λ call. pure (RuntimeCall.fungibles call))
          ((sent c x).0 ∷ (sent c x).1) [] x (sent-decode c x r)))

-- An environment that receives what the library sends for a call is matched by the runtime's
-- dispatching function, which decodes the call.
pub sent-decoded :
    (e : Environment) {Other : Type 0} (h : Host e Other) (x : Call)
    → CallInRange h.scale x
    → (env : e.State) → Receives e (build_dispatch (sent h.scale x).0) (sent h.scale x).1 env
    → let d = dispatching e h in
      (d.matcher env ≡ true)
      × (decode_input e d.decoder (e.in_len env) env
          ≡ (ok (VersionedRuntimeCall.v0 (RuntimeCall.fungibles x)), env))
unfolding build_dispatch PopApi.build_dispatch build_extension_method dispatching
    identified_by_first_byte decodes_as
sent-decoded e h x r env got =
    let c = h.scale in
    let (p, q) =
      prepend-Receives e 0 (sent c x).0 (sent c x).1 env (omega arith) (sent-lt c x) got in
    (
      (==_iff (func_id e env) 0).1 q,
      decode_input-eq_ok e (dispatching e h).decoder (e.in_len env) env (sent c x).1
          (VersionedRuntimeCall.v0 (RuntimeCall.fungibles x)) got.read
          (ap (value (decode_versioned_call c h.others)) p ∙ decode_versioned-sent c h.others x r),
    )

-- The result of a function that dispatches is what the status code says.
pub send_call-answer :
    (c : Scale) (ink : Ink) (x : Call) (s : ink.State)
    → let t = ink.invoke (build_dispatch (sent c x).0) (sent c x).1 s in
      send_call c ink x s ≡ (from_status_code t.0.0, t.1)
send_call-answer c ink x s =
    ap (λ m. m s) (send_call-sent c ink x)
    ∙ send-nothing c ink (build_dispatch (sent c x).0) (sent c x).1 s

-- Each function of the library that dispatches a call, given arguments within their types, makes
-- one request; its result is what the status code says and nothing else. Any environment that
-- receives the request is matched by the runtime's dispatching function, which decodes exactly the
-- call that the library's function is named after, with the same arguments.
pub send_call-reaches :
    (e : Environment) {Other : Type 0} (h : Host e Other) (ink : Ink) (x : Call)
    → CallInRange h.scale x
    → (method : ℕ) × (input : List ℕ) × ((s : ink.State)
        → send_call h.scale ink x s
          ≡ (from_status_code (ink.invoke method input s).0.0, (ink.invoke method input s).1))
      × ((env : e.State)
          → Receives e method input env
          → let d = dispatching e h in
            (d.matcher env ≡ true)
            × (decode_input e d.decoder (e.in_len env) env
                ≡ (ok (VersionedRuntimeCall.v0 (RuntimeCall.fungibles x)), env)))
send_call-reaches e h ink x r = (
  build_dispatch (sent h.scale x).0,
  (sent h.scale x).1,
  send_call-answer h.scale ink x,
  sent-decoded e h x r,
)
