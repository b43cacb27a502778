-- ===== src/PopApi/Queries.antt =====
-- From a contract's read to the runtime and back: pop-api/src/v0/fungibles/mod.rs against
-- runtime/devnet/src/config/api/mod.rs and the reads of pallets/api/src/fungibles/mod.rs.
use mathlib.Core.Option
use pop_node.Prelude.{
  ℕ, ◌<◌, ◌≡◌, refl, ap, ◌∙◌, arith, true, false, List, ◌++◌, ◌∷◌, [], some, ok, Exec, map_ok,
  ==_iff, ==_ne,
}
use pop_node.Extension.Environment.{Environment}
use pop_node.Extension.Decoding.{decode_input, decode_input-eq_ok}
use pop_node.Api.Codec.{Scale, Codec, pure, >>=-eq-some, decode-encode_only}
use pop_node.Api.Extension.{decodes_as, func_id, identified_by_first_byte}
use pop_node.Api.Fungibles.Types.{Assets, Read, ReadResult}
use pop_node.Api.Fungibles.Codec.{decode_read, read_fields}
use pop_node.Api.Fungibles.Reads.{read, encode}
use pop_node.Runtime.Calls.{RuntimeRead, decode_runtime_read}
use pop_node.Runtime.Versioning.{VersionedRuntimeRead, decode_versioned_read}
use pop_node.Runtime.Config.{Host, dispatching, reading, value}
use pop_node.PopApi.{StatusCode, from_status_code, decode_output, build_extension_method}
use pop_node.PopApi
use pop_node.PopApi.Ink.{Ink, answer}
use pop_node.PopApi.Fungibles
use pop_node.PopApi.Fungibles.{build_dispatch, build_read_state, send, owned}
use pop_node.PopApi.Fields.{token_fields-decode, owner_fields-decode, allowance_fields-decode}
use pop_node.PopApi.Receiving.{Receives, prepend-Receives}

module _ (c : Scale) where
  -- The arguments have values of their types.
  abbrev pub ReadInRange : Read → Type 0
  ReadInRange (Read.total_supply t) = c.token.InRange t
  ReadInRange (Read.balance_of t owner) = c.token.InRange t × c.account.InRange owner
  ReadInRange (Read.allowance t owner spender) =
      c.token.InRange t × c.account.InRange owner × c.account.InRange spender
  ReadInRange (Read.token_name t) = c.token.InRange t
  ReadInRange (Read.token_symbol t) = c.token.InRange t
  ReadInRange (Read.token_decimals t) = c.token.InRange t
  ReadInRange (Read.token_exists t) = c.token.InRange t

  -- A result has a value of its type.
  abbrev pub ResultInRange : ReadResult → Type 0
  ResultInRange (ReadResult.total_supply v) = c.balance.InRange v
  ResultInRange (ReadResult.balance_of v) = c.balance.InRange v
  ResultInRange (ReadResult.allowance v) = c.balance.InRange v
  ResultInRange (ReadResult.token_name v) = c.optional_bytes.InRange v
  ResultInRange (ReadResult.token_symbol v) = c.optional_bytes.InRange v
  ResultInRange (ReadResult.token_decimals v) = c.byte.InRange v
  ResultInRange (ReadResult.token_exists v) = c.boolean.InRange v

  -- What the contract's library sends for a read: the index and the fields.
  abbrev pub asked : Read → ℕ × List ℕ
  asked (Read.total_supply t) = (0, c.token.encode t)
  asked (Read.balance_of t owner) = (1, owned c t owner)
  asked (Read.allowance t owner spender) =
      (2, c.token.encode t ++ (c.account.encode owner ++ c.account.encode spender))
  asked (Read.token_name t) = (8, c.token.encode t)
  asked (Read.token_symbol t) = (9, c.token.encode t)
  asked (Read.token_decimals t) = (10, c.token.encode t)
  asked (Read.token_exists t) = (18, c.token.encode t)

  pub asked-lt : (x : Read) → (asked x).0 < 256
  asked-lt (Read.total_supply t) = omega arith
  asked-lt _ = omega arith

  asked-decode : (x : Read) → ReadInRange x → read_fields c (asked x).0 (asked x).1 ≡ some (x, [])
  unfolding read_fields
  asked-decode (Read.total_supply t) h = token_fields-decode c _ t h
  asked-decode (Read.balance_of t owner) h = owner_fields-decode c t owner h.0 h.1
  asked-decode (Read.allowance t owner spender) h =
      allowance_fields-decode c t owner spender h.0 h.1 h.2
  asked-decode (Read.token_name t) h = token_fields-decode c _ t h
  asked-decode (Read.token_symbol t) h = token_fields-decode c _ t h
  asked-decode (Read.token_decimals t) h = token_fields-decode c _ t h
  asked-decode (Read.token_exists t) h = token_fields-decode c _ t h

  decode_versioned-asked :
      (x : Read)
      → ReadInRange x
      → value (decode_versioned_read c) (0 ∷ 150 ∷ (asked x).0 ∷ (asked x).1)
        ≡ some (VersionedRuntimeRead.v0 (RuntimeRead.fungibles x))
  unfolding decode_versioned_read decode_runtime_read decode_read
  decode_versioned-asked x r =
      let query = RuntimeRead.fungibles x in
      ap (Option.map (λ r. r.0)) (
        >>=-eq-some (decode_runtime_read c) (λ q. pure (VersionedRuntimeRead.v0 q))
          (150 ∷ (asked x).0 ∷ (asked x).1) [] query
          (>>=-eq-some (decode_read c) (λ q. pure (RuntimeRead.fungibles q))
            ((asked x).0 ∷ (asked x).1) [] x (asked-decode x r)))

  module _ (ink : Ink) where
    -- A function of the library, with its result as the pallet names it.
    abbrev pub as_result :
        {A : Type 0}
        → (A → ReadResult)
        → Exec StatusCode ink.State A
        → Exec StatusCode ink.State ReadResult
    as_result make m s = (map_ok make (m s).0, (m s).1)

    -- The function of the contract's library that is named like the read.
    abbrev pub ask : Read → Exec StatusCode ink.State ReadResult
    ask (Read.total_supply t) = as_result ReadResult.total_supply (Fungibles.total_supply c ink t)
    ask (Read.balance_of t o) = as_result ReadResult.balance_of (Fungibles.balance_of c ink t o)
    ask (Read.allowance t o d) = as_result ReadResult.allowance (Fungibles.allowance c ink t o d)
    ask (Read.token_name t) = as_result ReadResult.token_name (Fungibles.token_name c ink t)
    ask (Read.token_symbol t) = as_result ReadResult.token_symbol (Fungibles.token_symbol c ink t)
    ask (Read.token_decimals t) =
        as_result ReadResult.token_decimals (Fungibles.token_decimals c ink t)
    ask (Read.token_exists t) = as_result ReadResult.token_exists (Fungibles.token_exists c ink t)

    decode_output-encode :
        {A : Type 0} (k : Codec A) (v : A)
        → k.InRange v
        → decode_output k.decode (k.encode v) ≡ ok v
    unfolding decode_output
    decode_output-encode k v r = rw (decode-encode_only k v r, decode_output) refl

    send_value :
        {A : Type 0} (k : Codec A) (make : A → ReadResult) (method : ℕ) (input : List ℕ) (v : A)
        (s : ink.State)
        → k.InRange v
        → (ink.invoke method input s).0 ≡ (0, k.encode v)
        → as_result make (send c ink method input k.decode) s
          ≡ (ok (make v), (ink.invoke method input s).1)
    unfolding send from_status_code decode_output
    send_value k make method input v s r p =
        let t = (ink.invoke method input s).1 in
        let output = decode_output k.decode in
        ap (λ x. (map_ok make x.0, x.1))
          (ink.call_invokes method input from_status_code output s
            ∙ ap (λ x. (answer from_status_code output x, t)) p
            ∙ ap (λ x. (x, t)) (decode_output-encode k v r))

    pub ask_returns :
        (x : Read) (a : Assets) (st : a.State) (s : ink.State)
        → ResultInRange (read a x st)
        → (ink.invoke (build_read_state (asked x).0) (asked x).1 s).0 ≡ (0, encode c (read a x st))
        → ask x s ≡ (ok (read a x st), (ink.invoke (build_read_state (asked x).0) (asked x).1 s).1)
    unfolding read encode Fungibles.total_supply Fungibles.balance_of Fungibles.allowance
        Fungibles.token_name Fungibles.token_symbol Fungibles.token_decimals Fungibles.token_exists
    ask_returns (Read.total_supply t) a st s r p = send_value c.balance _ _ _ _ s r p
    ask_returns (Read.balance_of t o) a st s r p = send_value c.balance _ _ _ _ s r p
    ask_returns (Read.allowance t o d) a st s r p = send_value c.balance _ _ _ _ s r p
    ask_returns (Read.token_name t) a st s r p = send_value c.optional_bytes _ _ _ _ s r p
    ask_returns (Read.token_symbol t) a st s r p = send_value c.optional_bytes _ _ _ _ s r p
    ask_returns (Read.token_decimals t) a st s r p = send_value c.byte _ _ _ _ s r p
    ask_returns (Read.token_exists t) a st s r p = send_value c.boolean _ _ _ _ s r p

-- An environment that receives what the library sends for a read is matched by the runtime's
-- reading function and not by the dispatching one, and the read is decoded.
pub asked-decoded :
    (e : Environment) {Other : Type 0} (h : Host e Other) (x : Read)
    → ReadInRange h.scale x
    → (env : e.State) → Receives e (build_read_state (asked h.scale x).0) (asked h.scale x).1 env
    → let q = reading e h in
      ((dispatching e h).matcher env ≡ false)
      × (q.matcher env ≡ true)
      × (decode_input e q.decoder (e.in_len env) env
          ≡ (ok (VersionedRuntimeRead.v0 (RuntimeRead.fungibles x)), env))
unfolding build_read_state PopApi.build_read_state build_extension_method dispatching reading
    identified_by_first_byte decodes_as
asked-decoded e h x r env got =
    let c = h.scale in
    let (p, q) =
      prepend-Receives e 1 (asked c x).0 (asked c x).1 env (omega arith) (asked-lt c x) got in
    (
      ==_ne (func_id e env) 0 (λ z. absurd (omega (arith, q, z))),
      (==_iff (func_id e env) 1).1 q,
      decode_input-eq_ok e (reading e h).decoder (e.in_len env) env (asked c x).1
          (VersionedRuntimeRead.v0 (RuntimeRead.fungibles x)) got.read
          (ap (value (decode_versioned_read c)) p ∙ decode_versioned-asked c x r),
    )

-- Each function of the library that reads, given arguments within their types, makes one request.
-- Any environment that receives it is matched by the runtime's reading function and not by the
-- dispatching one, and the read that is decoded is the one that the library's function is named
-- after. Where the chain answers with success and the encoding of what the pallet reads, a value
-- within its type, the function returns that value.
pub ask-reaches :
    (e : Environment) {Other : Type 0} (h : Host e Other) (ink : Ink) (x : Read)
    → ReadInRange h.scale x
    → (method : ℕ) × (input : List ℕ) × ((st : h.assets.State) (s : ink.State)
        → ResultInRange h.scale (read h.assets x st)
        → (ink.invoke method input s).0 ≡ (0, encode h.scale (read h.assets x st))
        → ask h.scale ink x s ≡ (ok (read h.assets x st), (ink.invoke method input s).1))
      × ((env : e.State)
          → Receives e method input env
          → let q = reading e h in
            ((dispatching e h).matcher env ≡ false)
            × (q.matcher env ≡ true)
            × (decode_input e q.decoder (e.in_len env) env
                ≡ (ok (VersionedRuntimeRead.v0 (RuntimeRead.fungibles x)), env)))
ask-reaches e h ink x r = (
  build_read_state (asked h.scale x).0,
  (asked h.scale x).1,
  ask_returns h.scale ink x h.assets,
  asked-decoded e h x r,
)
