-- ===== src/Composition/Pipelines.antt =====
-- The outcomes of a composition, and which of them stands for the whole.
use enterprise_agent_harness.Prelude.{
  ℕ, ◌+◌, ◌≤◌, String, ◌≡◌, refl, ap, true, ◌&&◌, ◌||◌, not, Option, none, some, List, [], ◌∷◌,
  ◌++◌, arith, all, length, length-append, is_some, blank, ◌==◌, nat_eq, string_eq, if_case,
  if_split, if◌then◌else◌,
}
use enterprise_agent_harness.Dict.{get}
use enterprise_agent_harness.Method.{Method, Result, ok, err, composition_error, after, after_case}
use enterprise_agent_harness.Contracts.{ExecutionContext, AgentOutcome}
use enterprise_agent_harness.Composition.Contracts.{
  CompositionStep, CompositionDefinition, CompositionResult,
}
use enterprise_agent_harness.Composition.Delegate.{Factory, Settings, Composer}
use enterprise_agent_harness.Composition.Compose.{
  is_complete, is_sequential, selects_one, by_id, is_unknown, the_step, one_step,
  steps_for_definition, final_outcome, dispatch, compose_steps, composed, compose,
}

-- All but the last of a list.
abbrev pub leading : List AgentOutcome → List AgentOutcome
leading [] = []
leading (o ∷ []) = []
leading (o ∷ next ∷ rest) = o ∷ leading (next ∷ rest)

leading-append : (os : List AgentOutcome) (o : AgentOutcome) → leading (os ++ o ∷ []) ≡ os
leading-append [] o = refl
leading-append (p ∷ []) o = refl
leading-append (p ∷ q ∷ os) o =
    ap (λ (rest : List AgentOutcome). p ∷ rest) (leading-append (q ∷ os) o)

all-leading :
    (os : List AgentOutcome) → all is_complete os ≡ true → all is_complete (leading os) ≡ true
all-leading [] h = refl
all-leading (o ∷ []) h = refl
all-leading (o ∷ next ∷ rest) h =
    let later = all-leading (next ∷ rest) (ground (arith, h)) in ground (arith, h, later)

all-append :
    (os : List AgentOutcome) (o : AgentOutcome)
    → all is_complete (os ++ o ∷ []) ≡ (all is_complete os && is_complete o)
all-append [] o = ground arith
all-append (p ∷ os) o = ground (arith, all-append os o)

-- The outcome of the whole is complete just when every outcome is.
first_incomplete_lem :
    (o : AgentOutcome) (os : List AgentOutcome)
    → is_complete (final_outcome o os) ≡ all is_complete (o ∷ os)
first_incomplete_lem o [] = ground arith
first_incomplete_lem o (next ∷ os) = ground (arith, first_incomplete_lem next os)

module _ {S : Type 0} (factory : Factory S) (settings : Settings) where
  abbrev Gathers : CompositionDefinition → ℕ → Result (List AgentOutcome) → Type 0
  Gathers definition most (err e) = Unit
  Gathers definition most (ok outcomes) =
      (length outcomes ≤ most)
      × (not (is_sequential definition.pattern) || all is_complete (leading outcomes) ≡ true)

  compose_steps-Gathers :
      (parent : ExecutionContext) (definition : CompositionDefinition)
      (steps : List CompositionStep) (input : String) (outcomes : List AgentOutcome) (most : ℕ)
      (c : Composer S)
      → length outcomes + length steps ≤ most
      → not (is_sequential definition.pattern) || all is_complete outcomes ≡ true
      → Gathers definition most
          (compose_steps factory settings parent definition steps input outcomes c).0
  unfolding compose_steps
  compose_steps-Gathers parent definition [] input outcomes most c few good =
      (omega arith, ground (arith, all-leading outcomes, good))
  compose_steps-Gathers parent definition (step ∷ steps) input outcomes most c few good =
      let end = dispatch factory settings parent definition step input c in
      let sequential = is_sequential definition.pattern in
      after_case (λ x. Gathers definition most x.0) end.0 _ end.1 (λ e. tt)
        (λ result done.
          let gathered = outcomes ++ result.outcome ∷ [] in
          let counted = length-append outcomes (result.outcome ∷ []) in
          let every = all-append outcomes result.outcome in
          if_split
            (λ (m : Method (Composer S) (List AgentOutcome)). Gathers definition most (m end.1).0)
            (sequential && not (is_complete result.outcome))
            (λ stops. (omega arith, rw (leading-append outcomes result.outcome) good))
            (λ goes.
              compose_steps-Gathers parent definition steps _ gathered most end.1 (omega arith)
                (ground (arith, goes, good, every))))

  -- `steps_for_definition` gives steps of the definition only: all of them, or one.
  abbrev Chosen : CompositionDefinition → Result (List CompositionStep) → Type 0
  Chosen definition (err e) = Unit
  Chosen definition (ok steps) = length steps ≤ length definition.steps

  the_step-Chosen :
      (definition : CompositionDefinition) (found : Option CompositionStep)
      → 1 ≤ length definition.steps
      → Chosen definition (the_step found)
  the_step-Chosen definition none some_step = tt
  the_step-Chosen definition (some step) some_step = some_step

  one_step-Chosen :
      (definition : CompositionDefinition) (selected : Option String) (steps : List CompositionStep)
      → length steps ≡ length definition.steps
      → Chosen definition (one_step selected steps)
  unfolding get
  one_step-Chosen definition (some id) [] same = tt
  one_step-Chosen definition (some id) (step ∷ steps) same =
      the_step-Chosen definition (get id (by_id (step ∷ steps) [])) (omega arith)
  one_step-Chosen definition none [] same = tt
  one_step-Chosen definition none (step ∷ steps) same =
      the_step-Chosen definition (get step.step_id (by_id (step ∷ steps) [])) (omega arith)

  steps_for_definition-Chosen :
      (definition : CompositionDefinition) (selected : Option String)
      → Chosen definition (steps_for_definition definition selected)
  unfolding steps_for_definition
  steps_for_definition-Chosen definition selected =
      if_case (Chosen definition) (is_unknown selected (by_id definition.steps [])) tt (
        if_case (Chosen definition) (selects_one definition.pattern)
          (if_case (Chosen definition)
            (not (is_some selected) && not (length definition.steps == 1)) tt
            (one_step-Chosen definition selected definition.steps refl))
          (if_case (Chosen definition) (is_some selected) tt (omega arith)))

  -- What a result says of its outcomes.
  abbrev pub Concludes : CompositionDefinition → CompositionResult → Type 0
  Concludes definition result =
      (length result.outcomes ≤ length definition.steps)
      × (not (is_sequential definition.pattern) || all is_complete (leading result.outcomes) ≡ true)
      × (is_complete result.final_outcome ≡ all is_complete result.outcomes)

  abbrev Ends : CompositionDefinition → Result CompositionResult → Type 0
  Ends definition (err e) = Unit
  Ends definition (ok result) = Concludes definition result

  composed-Ends :
      (parent : ExecutionContext) (definition : CompositionDefinition)
      (outcomes : List AgentOutcome) (c : Composer S)
      → Gathers definition (length definition.steps) (ok outcomes)
      → Ends definition (composed factory settings parent definition outcomes c).0
  composed-Ends parent definition [] c held = tt
  composed-Ends parent definition (o ∷ os) c (few, led) = (few, led, first_incomplete_lem o os)

  dispatched-Ends :
      (parent : ExecutionContext) (definition : CompositionDefinition) (c : Composer S)
      (outcomes : Result (List AgentOutcome))
      → Gathers definition (length definition.steps) outcomes
      → Ends definition (after outcomes (composed factory settings parent definition) c).0
  dispatched-Ends parent definition c (err e) held = tt
  dispatched-Ends parent definition c (ok outcomes) held =
      composed-Ends parent definition outcomes c held

  Chosen-Ends :
      (parent : ExecutionContext) (definition : CompositionDefinition) (input : String)
      (c : Composer S) (steps : Result (List CompositionStep))
      → Chosen definition steps
      → Ends definition
          (after steps
            (λ chosen d.
              let end = compose_steps factory settings parent definition chosen input [] d in
              after end.0 (composed factory settings parent definition) end.1)
            c).0
  Chosen-Ends parent definition input c (err e) held = tt
  Chosen-Ends parent definition input c (ok steps) held = dispatched-Ends parent definition _ _ (
      compose_steps-Gathers parent definition steps input [] (length definition.steps) c
        (omega arith) (ground arith))

  compose-Ends :
      (parent : ExecutionContext) (definition : CompositionDefinition) (input : String)
      (selected : Option String) (c : Composer S)
      → Ends definition (compose factory settings parent definition input selected c).0
  unfolding compose
  compose-Ends parent definition input selected c =
      after_case (λ x. Ends definition x.0) (if blank input then err composition_error else ok tt) _
        c (λ e. tt)
        (λ u checked.
          Chosen-Ends parent definition input c (steps_for_definition definition selected)
            (steps_for_definition-Chosen definition selected))

  -- A result of a composition has at most as many outcomes as the definition has steps; in a
  -- sequence every outcome before the last one is complete; and the final outcome is complete just
  -- when all of them are.
  pub compose-Concludes :
      (parent : ExecutionContext) (definition : CompositionDefinition) (input : String)
      (selected : Option String) (result : CompositionResult) (c : Composer S)
      → (compose factory settings parent definition input selected c).0 ≡ ok result
      → Concludes definition result
  compose-Concludes parent definition input selected result c h =
      rw h at (compose-Ends parent definition input selected c)
