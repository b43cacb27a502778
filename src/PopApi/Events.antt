-- ===== src/PopApi/Events.antt =====
-- pop-api/src/v0/fungibles/events.rs
use pop_node.Prelude.{ℕ, List, Option}
use pop_node.Frame.{AccountId, TokenId, Balance}

pub data Event : Type 0 where
  approval : (owner spender : AccountId) (value : Balance) → Event
  transfer : (from to : Option AccountId) (value : Balance) → Event
  created : (id : TokenId) (creator admin : AccountId) → Event
  destroy_started : (token : TokenId) → Event
  metadata_set : (token : TokenId) (name symbol : List ℕ) (decimals : ℕ) → Event
  metadata_cleared : (token : TokenId) → Event
