-- ===== src/Contract/Proxy.antt =====
-- extension/contract/lib.rs: the contract that passes an identifier and an input on to the chain
-- extension.
pub mod Answering
use pop_node.Prelude.{ℕ, ◌==◌, if◌then◌else◌, List, none, some, Result, ok, err, Exec}
use pop_node.Api.Codec.{Codec, Reader}
use pop_node.PopApi.Ink.{Ink}

-- `StatusCode`
abbrev pub StatusCode : Type 0
StatusCode = ℕ

-- `FromStatusCode for StatusCode`
unfoldable pub from_status_code : ℕ → Result StatusCode (Unit {0})
from_status_code status_code = if status_code == 0 then ok tt else err status_code

-- `From<ink::scale::Error> for StatusCode`: `u32::MAX`
abbrev pub undecodable : StatusCode
undecodable = 4294967295

-- What becomes of the output, by its decoder.
unfoldable pub decode_output : Reader (List ℕ) → List ℕ → Result StatusCode (List ℕ)
decode_output output bytes = elim (output bytes) [ none ↦ err undecodable | some (v, rest) ↦ ok v ]

-- `Proxy::call`
unfoldable pub call :
    (bytes : Codec (List ℕ)) (ink : Ink) → ℕ → List ℕ → Exec StatusCode ink.State (List ℕ)
unfolding from_status_code decode_output
call bytes ink func_id input =
    ink.call func_id (bytes.encode input) from_status_code (decode_output bytes.decode)
