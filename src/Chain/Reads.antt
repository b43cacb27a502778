-- ===== src/Chain/Reads.antt =====
-- Reads from the contract to pallet-assets and back, and a read that follows an approval:
-- pop-api/src/v0/fungibles/mod.rs against pallets/api/src/fungibles/mod.rs.
use pop_node.Prelude.{◌≡◌, inl, inr, ap, ◌∙◌, ok, if◌then◌else◌}
use pop_node.Frame.{AccountId, TokenId, Balance}
use pop_node.Extension.Environment.{Environment}
use pop_node.Api.Fungibles.Types.{Call, Read, ReadResult}
use pop_node.Api.Fungibles.State.{State}
use pop_node.Api.Fungibles.Reads.{read}
use pop_node.Api.Fungibles.Allowance.{ApprovalLaws}
use pop_node.Api.Fungibles.Success.{permits}
use pop_node.Runtime.Config.{Host}
use pop_node.PopApi.Ink.{Ink}
use pop_node.PopApi.Fungibles
use pop_node.PopApi.Fungibles.{build_read_state}
use pop_node.PopApi.Requests.{CallInRange}
use pop_node.PopApi.Queries.{ask, asked, ask_returns, ReadInRange, ResultInRange}
use pop_node.Chain.{Dispatches, Executes, Pays, PaysRead, bytes_of}
use pop_node.Chain.Calls.{entered}
use pop_node.Chain.Answers.{call_api-written}
use pop_node.Chain.Approvals.{send_approve-outcome}

module _ (e : Environment) {Other : Type 0} (h : Host e Other) (ink : Ink)
    (pallet : e.State → State h.assets) (f : Dispatches e h pallet)
    (c : Executes e h ink pallet) where
  -- The environment in which the extension answers a read.
  abbrev pub entered_read : Read → ink.State → e.State
  entered_read x s = c.enter (build_read_state (asked h.scale x).0) (asked h.scale x).1 s

  -- Given the documented behaviour of pallet-contracts and FRAME, a function of the contract's
  -- library that reads, its arguments and its result within their types, returns to a contract that
  -- can pay for it exactly what the pallet reads, and the pallet's state stays as it was.
  pub ask-reads :
      (x : Read) (s : ink.State)
      → ReadInRange h.scale x
      → ResultInRange h.scale (read h.assets x (c.ledger s).assets)
      → PaysRead e h x (bytes_of e h x (c.ledger s)) (entered_read x s)
      → ((ask h.scale ink x s).0 ≡ ok (read h.assets x (c.ledger s).assets))
        × (c.ledger (ask h.scale ink x s).1 ≡ c.ledger s)
  ask-reads x s r ranged pays =
      let st = c.ledger s in
      let (before, env, runs, wrote, kept) =
        call_api-written e h pallet c.request f x (entered_read x s) st (c.enter_keeps _ _ s) r
          (c.receives _ _ s) pays in
      let invoked = c.converges _ _ s 0 env runs in
      let output = c.writes (bytes_of e h x st) before env wrote in
      let returned =
        ask_returns h.scale ink x h.assets st.assets s ranged
          (ap (λ t. t.0) invoked ∙ ap (λ bytes. (0, bytes)) output) in
      (
        ap (λ t. t.0) returned,
        ap (λ t. c.ledger t.1) returned
            ∙ ap (λ t. c.ledger t.1) invoked
            ∙ c.leave_keeps s env
            ∙ kept,
      )

  -- The contract's address stays.
  pub ask-address :
      (x : Read) (s : ink.State)
      → ReadInRange h.scale x
      → ResultInRange h.scale (read h.assets x (c.ledger s).assets)
      → PaysRead e h x (bytes_of e h x (c.ledger s)) (entered_read x s)
      → c.address (ask h.scale ink x s).1 ≡ c.address s
  ask-address x s r ranged pays =
      let st = c.ledger s in
      let (before, env, runs, wrote, kept) =
        call_api-written e h pallet c.request f x (entered_read x s) st (c.enter_keeps _ _ s) r
          (c.receives _ _ s) pays in
      let invoked = c.converges _ _ s 0 env runs in
      let output = c.writes (bytes_of e h x st) before env wrote in
      let returned =
        ask_returns h.scale ink x h.assets st.assets s ranged
          (ap (λ t. t.0) invoked ∙ ap (λ bytes. (0, bytes)) output) in
      ap (λ t. c.address t.1) returned ∙ ap (λ t. c.address t.1) invoked ∙ c.leave_address s env

  -- Given the documented behaviour of pallet-contracts, FRAME and pallet-assets, a contract that
  -- approves a value and then reads the allowance, where it can pay for both and the values are
  -- within their types, gets exactly that value if pallet-assets permits the calls that take the
  -- allowance there, and otherwise the allowance from before.
  pub approve_then_allowance :
      (t : TokenId) (d : AccountId) (v : Balance) (s : ink.State)
      → ApprovalLaws h.assets
      → CallInRange h.scale (Call.approve t d v)
      → ReadInRange h.scale (Read.allowance t (c.address s) d)
      → Pays e h (Call.approve t d v) (entered e h ink pallet f c (Call.approve t d v) s)
      → let s' = (Fungibles.approve h.scale ink t d v s).1 in
        let query = Read.allowance t (c.address s) d in
        let before = (c.ledger s).assets in
        let current = h.assets.allowance before t (c.address s) d in
        ResultInRange h.scale (ReadResult.allowance current)
        → PaysRead e h query (bytes_of e h query (c.ledger s')) (entered_read query s')
        → (ask h.scale ink query s').0
          ≡ ok (
              ReadResult.allowance (
                if permits h.assets (f.signed (c.address s)) t d v current before
                then v
                else current))
  unfolding read
  approve_then_allowance t d v s laws r r' pays ranged pays' =
      let s' = (Fungibles.approve h.scale ink t d v s).1 in
      let query = Read.allowance t (c.address s) d in
      elim (send_approve-outcome e h ink pallet f c t d v s laws r pays) [
        | inl (permitted, _, sets, _) ↦
            let (reads, _) = ask-reads query s' r' (rw sets (r.2)) pays' in
            rw permitted (reads ∙ ap (λ x. ok (ReadResult.allowance x)) sets)
        | inr (refused, _, _, _, kept) ↦
            let same = ap (λ x. h.assets.allowance x.assets t (c.address s) d) kept in
            let (reads, _) = ask-reads query s' r' (rw same ranged) pays' in
            rw refused (reads ∙ ap (λ x. ok (ReadResult.allowance x)) same)
      ]
