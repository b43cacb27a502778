-- ===== src/Extension/Choice.antt =====
-- Which function of the tuple runs.
use pop_node.Prelude.{◌≡◌, refl, ap, ◌∙◌, true, false, List, [], ◌∷◌, ◌++◌, err}
use pop_node.Frame.{DispatchError}
use pop_node.Extension.Environment.{Environment}
use pop_node.Extension.Functions.{Function, execute_tuple}

module _ (e : Environment) where
  abbrev pub NoneMatches : List (Function e) → e.State → Type 0
  NoneMatches [] env = Unit {0}
  NoneMatches (f ∷ fs) env = (f.matches env ≡ false) × NoneMatches fs env

  -- A tuple does what its first function that matches does: the functions before it have no effect,
  -- and neither have those behind it.
  pub execute_tuple-first :
      (failed : DispatchError) (before after : List (Function e)) (f : Function e) (env : e.State)
      → NoneMatches before env
      → f.matches env ≡ true
      → execute_tuple e failed (before ++ f ∷ after) env ≡ f.execute env
  unfolding execute_tuple
  execute_tuple-first failed [] after f env h m = rw m
  execute_tuple-first failed (g ∷ before) after f env h m =
      rw (h.0) (execute_tuple-first failed before after f env h.1 m)

  -- Where no function of a tuple matches, the call fails with the error for a failed decoding and
  -- changes nothing.
  pub execute_tuple_unmatched :
      (failed : DispatchError) (fs : List (Function e)) (env : e.State)
      → NoneMatches fs env
      → execute_tuple e failed fs env ≡ (err failed, env)
  unfolding execute_tuple
  execute_tuple_unmatched failed [] env h = refl
  execute_tuple_unmatched failed (g ∷ fs) env h =
      rw (h.0) (execute_tuple_unmatched failed fs env h.1)

  -- A tuple does what its first function that matches does: the functions before it have no effect,
  -- and neither have those behind it. Where none matches, the call fails with the error for a failed
  -- decoding and changes nothing.
  pub execute_tuple-choice :
      (failed : DispatchError) (fs : List (Function e)) (env : e.State)
      → (NoneMatches fs env → execute_tuple e failed fs env ≡ (err failed, env))
        × ((before after : List (Function e)) (f : Function e)
            → fs ≡ before ++ f ∷ after
            → NoneMatches before env
            → f.matches env ≡ true
            → execute_tuple e failed fs env ≡ f.execute env)
  execute_tuple-choice failed fs env = (
    execute_tuple_unmatched failed fs env,
    λ before after f is none matches.
        ap (λ gs. execute_tuple e failed gs env) is
        ∙ execute_tuple-first failed before after f env none matches,
  )
