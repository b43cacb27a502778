-- ===== src/Examples/Requests.antt =====
-- A chain in the place of ink! and the runtime (pop-api/src/v0/fungibles/mod.rs): it counts the calls,
-- and answers each with status code 0 and the encoded number 42.
use pop_node.Prelude.{ℕ, suc, refl, [], ◌∷◌}
use pop_node.PopApi.Ink.{Ink, answer}

abbrev pub chain : Ink
chain = record {
  State = ℕ;
  invoke = λ method input n. ((0, 42 ∷ 0 ∷ 0 ∷ 0 ∷ []), suc n);
  call = λ method input status output n. (answer status output (0, 42 ∷ 0 ∷ 0 ∷ 0 ∷ []), suc n);
  call_invokes = λ method input status output n. refl;
}
