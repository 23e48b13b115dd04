-- ===== src/Runtime/Control.antt =====
-- runtime/control.py: `ExecutionControl`. The n-th reading of the monotonic clock gives
-- `monotonic n`, and the n-th look at the caller's signal `cancelled n`. A cost is a float; its
-- addition and its comparison are parameters. Locks are left out.
use enterprise_agent_harness.Prelude.{
  ℕ, ◌+◌, ◌-◌, String, Bool, true, false, ◌&&◌, not, Option, none, some, ltb, leb, ◌==◌, nat_eq,
  string_eq, option_eq, if◌then◌else◌, is_some,
}
use enterprise_agent_harness.Method.{
  Method, Result, ok, err, value_error, budget_exhausted, execution_cancelled, execution_timeout,
  gets, ◌>>=◌, ◌>>◌,
}

pub record Costs (Cost : Type 0) : Type 0 where
  pub zero_cost : Cost
  pub add : Cost → Cost → Cost
  pub exceeds : Cost → Cost → Bool

-- What the world says to the control.
pub record Surroundings : Type 0 where
  pub monotonic : ℕ → ℕ
  pub cancelled : ℕ → Bool

-- The limits are the constructor's arguments; the other fields are those that change.
pub record Control (Cost : Type 0) : Type 0 where
  pub deadline : Option ℕ
  pub max_retries : Option ℕ
  pub max_total_tokens : Option ℕ
  pub max_cost : Option Cost
  pub max_tool_invocations : Option ℕ
  pub remaining_retries : Option ℕ
  pub retry_count : ℕ
  pub retry_budget_exhausted : Bool
  pub execution_id : Option String
  pub total_tokens : ℕ
  pub total_cost : Cost
  pub tool_invocations : ℕ
  pub budget_reason : Option String
  pub clock_reads : ℕ
  pub signal_reads : ℕ

-- The arguments of the constructor.
pub record Limits (Cost : Type 0) : Type 0 where
  pub timeout_seconds : Option ℕ
  pub max_retries : Option ℕ
  pub max_total_tokens : Option ℕ
  pub max_cost : Option Cost
  pub max_tool_invocations : Option ℕ

abbrev pub is_zero : Option ℕ → Bool
is_zero none = false
is_zero (some n) = n == 0

module _ {Cost : Type 0} (costs : Costs Cost) (surroundings : Surroundings) where
  abbrev pub is_negative : Option Cost → Bool
  is_negative none = false
  is_negative (some cost) = costs.exceeds costs.zero_cost cost

  -- `__init__`: a count is never negative here.
  abbrev pub deadline_at : Option ℕ → Option ℕ
  deadline_at none = none
  deadline_at (some seconds) = some (surroundings.monotonic 0 + seconds)

  unfoldable pub new_control : Limits Cost → Result (Control Cost)
  new_control limits =
      if is_zero limits.timeout_seconds
      then err value_error
      else if is_zero limits.max_total_tokens
      then err value_error
      else if is_negative limits.max_cost
      then err value_error
      else if is_zero limits.max_tool_invocations
      then err value_error
      else ok (record {
        deadline = deadline_at limits.timeout_seconds;
        max_retries = limits.max_retries;
        max_total_tokens = limits.max_total_tokens;
        max_cost = limits.max_cost;
        max_tool_invocations = limits.max_tool_invocations;
        remaining_retries = limits.max_retries;
        retry_count = 0;
        retry_budget_exhausted = false;
        execution_id = none;
        total_tokens = 0;
        total_cost = costs.zero_cost;
        tool_invocations = 0;
        budget_reason = none;
        clock_reads = 1;
        signal_reads = 0;
      })

  unfoldable pub bind_execution : String → Method (Control Cost) (Unit {0})
  bind_execution id c =
      if is_some c.execution_id && not (c.execution_id == some id)
      then (err value_error, c)
      else (ok tt, record c { execution_id = some id })

  -- `check`: the deadline is looked at only when the run is not cancelled.
  abbrev pub check_deadline : Option ℕ → Method (Control Cost) (Unit {0})
  check_deadline none c = (ok tt, c)
  check_deadline (some deadline) c = (
    if leb deadline (surroundings.monotonic c.clock_reads) then err execution_timeout else ok tt,
    record c { clock_reads = c.clock_reads + 1 },
  )

  unfoldable pub check : Method (Control Cost) (Unit {0})
  check c =
      let looked = record c { signal_reads = c.signal_reads + 1 } in
      if surroundings.cancelled c.signal_reads
      then (err execution_cancelled, looked)
      else check_deadline c.deadline looked

  -- `remaining_seconds`
  abbrev pub remaining_seconds : Option ℕ → ℕ → Option ℕ
  remaining_seconds none now = none
  remaining_seconds (some deadline) now = some (deadline - now)

  abbrev pub is_over : Option ℕ → ℕ → Bool
  is_over none count = false
  is_over (some most) count = ltb most count

  abbrev pub is_over_cost : Option Cost → Cost → Bool
  is_over_cost none cost = false
  is_over_cost (some most) cost = costs.exceeds cost most

  -- `record_provider_usage`, after `check`: what is over stays recorded.
  unfoldable pub use_tokens : ℕ → ℕ → Cost → Method (Control Cost) (Unit {0})
  use_tokens input_tokens output_tokens cost c =
      let used = record c {
        total_tokens = c.total_tokens + (input_tokens + output_tokens);
        total_cost = costs.add c.total_cost cost;
      } in
      if is_over c.max_total_tokens used.total_tokens
      then (err budget_exhausted, record used { budget_reason = some "max_total_tokens" })
      else if is_over_cost c.max_cost used.total_cost
      then (err budget_exhausted, record used { budget_reason = some "max_cost" })
      else (ok tt, used)

  unfoldable pub record_provider_usage : ℕ → ℕ → Cost → Method (Control Cost) (Unit {0})
  record_provider_usage input_tokens output_tokens cost = do
    check
    use_tokens input_tokens output_tokens cost

  unfoldable pub use_tool : Method (Control Cost) (Unit {0})
  use_tool c =
      let used = record c { tool_invocations = c.tool_invocations + 1 } in
      if is_over c.max_tool_invocations used.tool_invocations
      then (err budget_exhausted, record used { budget_reason = some "max_tool_invocations" })
      else (ok tt, used)

  unfoldable pub record_tool_invocation : Method (Control Cost) (Unit {0})
  record_tool_invocation = do check; use_tool

  -- `admit_retry`, after `check`.
  abbrev pub consume_retry : Option ℕ → Method (Control Cost) Bool
  consume_retry none c = (ok true, record c { retry_count = c.retry_count + 1 })
  consume_retry (some remaining) c =
      if remaining == 0 then (ok false, record c { retry_budget_exhausted = true }) else (
        ok true,
        record c { remaining_retries = some (remaining - 1); retry_count = c.retry_count + 1 },
      )

  unfoldable pub admit_retry : Method (Control Cost) Bool
  admit_retry = do check; remaining ← gets (λ c. c.remaining_retries); consume_retry remaining
