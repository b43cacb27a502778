-- ===== src/PopApi/Ink.antt =====
-- ink!, as far as the contracts' library uses it: a method of the chain extension is called with its
-- identifier and the encoded input, a function that reads the status code and one that reads the
-- output. `invoke` is the chain's answer: status code and output.
use pop_node.Prelude.{ℕ, ◌≡◌, List, Result, ok, err, Exec}

abbrev pub answer :
    {E A : Type 0} → (ℕ → Result E (Unit {0})) → (List ℕ → Result E A) → ℕ × List ℕ → Result E A
answer status output (code, bytes) = elim (status code) [ err x ↦ err x | ok done ↦ output bytes ]

-- `call_invokes` is what ink! documents of a method with an error code: the output is decoded only
-- where the status code means success.
pub record Ink : Type 1 where
  pub State : Type 0
  pub invoke : ℕ → List ℕ → State → (ℕ × List ℕ) × State
  pub call :
      {E A : Type 0}
      → ℕ
      → List ℕ
      → (ℕ → Result E (Unit {0}))
      → (List ℕ → Result E A)
      → Exec E State A
  pub call_invokes :
      {E A : Type 0} (method : ℕ) (input : List ℕ) (status : ℕ → Result E (Unit {0}))
      (output : List ℕ → Result E A) (s : State)
      → call method input status output s
        ≡ (answer status output (invoke method input s).0, (invoke method input s).1)
