-- ===== src/Contract/Tester.antt =====
-- pop-api/integration-tests/contracts: the contract whose messages pass their arguments on to the library
-- (fungibles/lib.rs), and the one that creates a token when it is made
-- (create_token_in_constructor/lib.rs). `contract` is the account of the contract; the newest event stands
-- first.
use pop_node.Prelude.{◌≡◌, refl, List, ◌∷◌, some, ok, Exec, ◌>>◌, pure, Result-cases, inl, inr}
use pop_node.Frame.{AccountId, TokenId, Balance}
use pop_node.Api.Codec.{Scale}
use pop_node.Api.Fungibles.Types.{Call, Read, ReadResult}
use pop_node.PopApi.Queries.{as_result, ask}
use pop_node.PopApi.{StatusCode}
use pop_node.PopApi.Ink.{Ink}
use pop_node.PopApi.Events.{Event}
use pop_node.PopApi.Fungibles
use pop_node.PopApi.Requests.{send_call}

module _ (c : Scale) (ink : Ink) where
  -- The chain, and the events emitted so far.
  pub record Outside : Type 0 where
    pub chain : ink.State
    pub events : List Event

  -- A function of the library, with `?`.
  abbrev pub on_chain : {A : Type 0} → Exec StatusCode ink.State A → Exec StatusCode Outside A
  on_chain m s = ((m s.chain).0, record s { chain = (m s.chain).1 })

  abbrev pub emit : Event → Exec StatusCode Outside (Unit {0})
  emit event s = (ok tt, record s { events = event ∷ s.events })

  -- The messages of `Fungibles` that take `&mut self`, each by the call that it passes on.
  unfoldable pub forward : AccountId → Call → Exec StatusCode Outside (Unit {0})
  forward contract (Call.transfer token to value) = do
    on_chain (Fungibles.transfer c ink token to value)
    emit (Event.transfer (some contract) (some to) value)
  forward contract (Call.transfer_from token from to value) = do
    on_chain (Fungibles.transfer_from c ink token from to value)
    emit (Event.transfer (some from) (some to) value)
  forward contract (Call.approve token spender value) = do
    on_chain (Fungibles.approve c ink token spender value)
    emit (Event.approval contract spender value)
  forward contract (Call.increase_allowance token spender value) =
      on_chain (Fungibles.increase_allowance c ink token spender value)
  forward contract (Call.decrease_allowance token spender value) =
      on_chain (Fungibles.decrease_allowance c ink token spender value)
  forward contract (Call.create id admin min_balance) = do
    on_chain (Fungibles.create c ink id admin min_balance)
    emit (Event.created id admin admin)
  forward contract (Call.start_destroy token) = do
    on_chain (Fungibles.start_destroy c ink token)
    emit (Event.destroy_started token)
  forward contract (Call.set_metadata token name symbol decimals) = do
    on_chain (Fungibles.set_metadata c ink token name symbol decimals)
    emit (Event.metadata_set token name symbol decimals)
  forward contract (Call.clear_metadata token) = do
    on_chain (Fungibles.clear_metadata c ink token)
    emit (Event.metadata_cleared token)
  forward contract (Call.mint token account amount) =
      on_chain (Fungibles.mint c ink token account amount)
  forward contract (Call.burn token account amount) =
      on_chain (Fungibles.burn c ink token account amount)

  -- The messages of `Fungibles` that take `&self`, each by the read that it passes on.
  unfoldable pub look_up : Read → Exec StatusCode Outside ReadResult
  look_up (Read.total_supply token) =
      on_chain (as_result c ink ReadResult.total_supply (Fungibles.total_supply c ink token))
  look_up (Read.balance_of token owner) =
      on_chain (as_result c ink ReadResult.balance_of (Fungibles.balance_of c ink token owner))
  look_up (Read.allowance token owner spender) =
      on_chain
        (as_result c ink ReadResult.allowance (Fungibles.allowance c ink token owner spender))
  look_up (Read.token_name token) =
      on_chain (as_result c ink ReadResult.token_name (Fungibles.token_name c ink token))
  look_up (Read.token_symbol token) =
      on_chain (as_result c ink ReadResult.token_symbol (Fungibles.token_symbol c ink token))
  look_up (Read.token_decimals token) =
      on_chain (as_result c ink ReadResult.token_decimals (Fungibles.token_decimals c ink token))
  look_up (Read.token_exists token) =
      on_chain (as_result c ink ReadResult.token_exists (Fungibles.token_exists c ink token))

  -- `CreateTokenInConstructor::new`: the token that the contract keeps
  unfoldable pub new_token : AccountId → TokenId → Balance → Exec StatusCode Outside TokenId
  new_token contract id min_balance = do
    on_chain (Fungibles.create c ink id contract min_balance)
    emit (Event.created id contract contract)
    pure id

  -- What `create` emits if it succeeds: the creator of the token is said to be the admin that is named.
  pub forward-create_ok :
      (contract : AccountId) (id : TokenId) (admin : AccountId) (m : Balance) (s : Outside)
      → (forward contract (Call.create id admin m) s).0 ≡ ok tt
      → ((send_call c ink (Call.create id admin m) s.chain).0 ≡ ok tt)
        × ((forward contract (Call.create id admin m) s).1 ≡ record {
          chain = (send_call c ink (Call.create id admin m) s.chain).1;
          events = Event.created id admin admin ∷ s.events;
        })
  unfolding forward
  forward-create_ok contract id admin m s done =
      elim (Result-cases (send_call c ink (Call.create id admin m) s.chain).0) [
        | inl (u, p) ↦ (p, rw p refl)
        | inr (code, p) ↦ absurd (cc (rw p at done))
      ]

  -- A message that reads asks the library and emits nothing.
  pub look_up-ask : (x : Read) (s : Outside) → look_up x s ≡ on_chain (ask c ink x) s
  unfolding look_up
  look_up-ask (Read.total_supply token) s = refl
  look_up-ask _ s = refl
