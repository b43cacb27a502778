-- ===== src/Examples/Contract.antt =====
-- The contract of token 7 (pop-api/examples/fungibles/lib.rs) at account 5, with owner 1, on the chain
-- that answers each call with success.
use pop_node.Prelude.{ℕ, ◌≡◌, ◌≢◌, refl, arith, [], ◌∷◌, ok, err}
use pop_node.PopApi.Errors.{custom}
use pop_node.PopApi.Fungibles.{transfer_from, allowance, send, build_dispatch, build_read_state}
use pop_node.PopApi
use pop_node.PopApi.{from_status_code, decode_output, build_extension_method}
use pop_node.Contract.{State, not_the_owner}
use pop_node.Contract.Messages
use pop_node.Contract.Ownership.{Request, handle, History, History-no_owner}
use pop_node.Examples.Codecs.{codecs, read_u32}
use pop_node.Examples.Requests.{chain}

abbrev stored : State codecs chain
stored = record {
  storage = record { id = 7; owner = 1 };
  outside = record { chain = 0; events = [] };
}

one_ne : (n : ℕ) → 2 ≡ n → ◌≢◌ {A = ℕ} 1 n
one_ne n p = λ q. omega (arith, p, q)

-- Account 1 sends 9 from account 3 to account 2.
abbrev moved : State codecs chain
moved = (handle codecs chain 5 1 (Request.transfer_from 3 2 9 []) stored).1

moving : handle codecs chain 5 1 (Request.transfer_from 3 2 9 []) stored ≡ (ok tt, moved)
unfolding handle Messages.transfer_from Messages.ensure_owner Messages.send_transfer_from
    Messages.allowance transfer_from allowance send build_dispatch build_read_state
    PopApi.build_dispatch PopApi.build_read_state build_extension_method from_status_code
    decode_output read_u32
moving = refl

-- Account 1 hands over to account 2.
abbrev given : State codecs chain
given = (handle codecs chain 5 1 (Request.transfer_ownership 2) stored).1

giving : handle codecs chain 5 1 (Request.transfer_ownership 2) stored ≡ (ok tt, given)
unfolding handle Messages.transfer_ownership Messages.ensure_owner
giving = refl

refused :
    handle codecs chain 5 2 (Request.transfer 2 9 []) stored ≡ (err (custom not_the_owner), stored)
unfolding handle Messages.transfer Messages.ensure_owner
refused = refl

foreign : History codecs chain 5 (2 ∷ []) stored stored
foreign = History.reverted (Request.transfer 2 9 []) refused History.created

History-no_owner_example : stored ≡ stored
History-no_owner_example = History-no_owner codecs chain 5 foreign (one_ne 2 refl, tt)
