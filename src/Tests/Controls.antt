-- ===== src/Tests/Controls.antt =====
-- The execution control at concrete limits and calls.
use enterprise_agent_harness.Prelude.{ℕ, ◌+◌, none, some, List, [], ◌∷◌, ltb}
use enterprise_agent_harness.Runtime.Control.{Costs, Surroundings, Limits, new_control}
use enterprise_agent_harness.Runtime.Budgets.{
  Call, retrying, invoking, using, KeepsBudgets, new_control-KeepsBudgets,
}

abbrev costs : Costs ℕ
costs = record { zero_cost = 0; add = λ a b. a + b; exceeds = λ a b. ltb b a }

abbrev surroundings : Surroundings
surroundings = record { monotonic = λ n. n; cancelled = λ n. ltb 9 n }

abbrev limits : Limits ℕ
limits = record {
  timeout_seconds = some 100;
  max_retries = some 1;
  max_total_tokens = some 50;
  max_cost = none;
  max_tool_invocations = some 2;
}

abbrev calls : List (Call costs surroundings)
calls = retrying ∷ invoking ∷ retrying ∷ using 10 5 1 ∷ invoking ∷ invoking ∷ []

new_control-KeepsBudgets_example :
    KeepsBudgets costs surroundings limits calls (new_control costs surroundings limits)
new_control-KeepsBudgets_example = new_control-KeepsBudgets costs surroundings limits calls
