-- ===== src/Contract/Proxy/Answering.antt =====
-- What the contract of extension/contract/lib.rs gets back from the chain extension (extension/src).
use pop_node.Prelude.{ℕ, ◌≡◌, ◌≢◌, refl, ap, ◌∙◌, ==_ne, List, none, ok, err}
use pop_node.Frame.{converging}
use pop_node.Extension.Environment.{Environment}
use pop_node.Api.Codec.{Codec, decode-encode_only}
use pop_node.Api.Fungibles.State.{State}
use pop_node.Runtime.Config.{Host, call_api}
use pop_node.PopApi.Ink.{Ink, answer}
use pop_node.Chain.{Executes}
use pop_node.Contract.Proxy.{from_status_code, undecodable, decode_output, call}

answer_failed :
    (bytes : Codec (List ℕ)) (code : ℕ) (output : List ℕ)
    → code ≢ 0
    → answer from_status_code (decode_output bytes.decode) (code, output) ≡ err code
unfolding from_status_code
answer_failed bytes code output n = rw (==_ne code 0 n, answer) refl

answer_given :
    (bytes : Codec (List ℕ)) (v : List ℕ)
    → bytes.InRange v
    → answer from_status_code (decode_output bytes.decode) (0, bytes.encode v) ≡ ok v
unfolding from_status_code decode_output
answer_given bytes v r = rw (decode-encode_only bytes v r, answer, decode_output) refl

answer-undecodable :
    (bytes : Codec (List ℕ)) (output : List ℕ)
    → bytes.decode output ≡ none
    → answer from_status_code (decode_output bytes.decode) (0, output) ≡ err undecodable
unfolding from_status_code decode_output
answer-undecodable bytes output p = rw (p, answer, decode_output) refl

module _ (e : Environment) {Other : Type 0} (h : Host e Other) (ink : Ink)
    (pallet : e.State → State h.assets) (c : Executes e h ink pallet) (bytes : Codec (List ℕ)) where
  -- Given the documented behaviour of pallet-contracts and ink!, where the chain extension converges
  -- with a status code, the contract returns the code as its error if it is not 0, the bytes that the
  -- extension has written if it is 0, and `u32::MAX` if they are no encoded bytes; and the chain is
  -- as the extension left it.
  pub call-outcome :
      (func_id : ℕ) (input : List ℕ) (s : ink.State) (code : ℕ) (env : e.State)
      → call_api e h (c.enter func_id (bytes.encode input) s) ≡ (ok (converging code), env)
      → let r = call bytes ink func_id input s in
        (code ≢ 0 → r.0 ≡ err code)
        × (code ≡ 0 → (v : List ℕ) → bytes.InRange v → c.written env ≡ bytes.encode v → r.0 ≡ ok v)
        × (code ≡ 0 → bytes.decode (c.written env) ≡ none → r.0 ≡ err undecodable)
        × (r.1 ≡ c.leave s env)
  unfolding call
  call-outcome func_id input s code env runs =
      let output = decode_output bytes.decode in
      let invokes = ink.call_invokes func_id (bytes.encode input) from_status_code output s in
      let answers = c.converges func_id (bytes.encode input) s code env runs in
      let same = ap (λ r. r.0) invokes ∙ ap (λ r. answer from_status_code output r.0) answers in
      (
        λ n. same ∙ answer_failed bytes code (c.written env) n,
        λ z v r p.
            same
            ∙ ap (λ n. answer from_status_code output (n, c.written env)) z
            ∙ ap (λ w. answer from_status_code output (0, w)) p
            ∙ answer_given bytes v r,
        λ z p.
            same
            ∙ ap (λ n. answer from_status_code output (n, c.written env)) z
            ∙ answer-undecodable bytes (c.written env) p,
        ap (λ r. r.1) invokes ∙ ap (λ r. r.1) answers,
      )
