-- ===== src/Lib.antt =====
-- The governed parts of the enterprise agent harness, src/enterprise_agent_harness of the
-- repository: the background job runner with its two stores, the tool registry, delegation and
-- composition of agents, the state store, the execution control, the permission policies, the
-- approval broker, the safety policy and the verification of outcomes.
--
-- How the parts work together. A background event is handled by `BackgroundJobRunner.run`: it
-- looks the event up in the deduplication store, takes a lease on the event's key, claims the
-- event, calls the application's handler with bounded retries, ends the record and releases the
-- lease. A run of an agent keeps its state in the state store, and its control holds its deadline
-- and its budgets. A tool call that it proposes passes the permission broker, which asks the
-- declarative policy engine and looks for an exact approval; the approval broker collects the
-- decisions on requests. The tool registry resolves the tool, answers a repeated call from its
-- cache, and runs the tool's handler with bounded retries. An agent hands work to another by
-- `AgentComposer.delegate`, under authority that is cut out of its own. At the end of a run the
-- provider's proposal is verified against the evidence that the tools returned, and the safety
-- policy chooses the outcome's status.
--
-- Which file models what:
--   Background/Leases         background/leases.py (`InMemoryLeaseStore`)
--   Background/Deduplication  background/deduplication.py (`InMemoryDeduplicationStore`)
--   Background/Events         background/events.py
--   Background/Runner         background/runner.py (`run` and the functions that it calls)
--   Tools/Definitions, Invoke tools/definitions.py (the fields, and `ToolDefinition.invoke`)
--   Tools/Registry            tools/registry.py (versions and their lifecycle)
--   Tools/Retry, Invocation   tools/registry.py (one round of the retry loop)
--   Tools/Execution           tools/registry.py (`ToolRegistry.invoke`)
--   Tools/Steps, Attempts, Retries, Replay, Lifecycle: proofs on these
--   Composition/Limits, Delegate  composition.py (`AgentComposer.delegate`)
--   Composition/Compose       composition.py (`AgentComposer.compose`)
--   Composition/Ceilings, Authority, Chains, Reservations, Once, Pipelines: proofs on these
--   State/Store               state/store.py (`InMemoryStateStore`); Ownership, Conflicts: proofs
--   Runtime/Control           runtime/control.py (`ExecutionControl`); Spending, Budgets: proofs
--   Governance/Permissions    governance/permissions.py (engine and broker); its Grants says what
--                             the context and the engine's mappings grant
--   Governance/Approvals      governance/approvals.py (`InMemoryApprovalBroker`, and in Policies
--                             `DeclarativeApprovalPolicyEngine`, of which Reading is a
--                             description without its loops)
--   Governance/Safety         governance/safety.py
--   Outcomes                  verification/outcomes.py
--   Contracts                 contracts.py, the contracts that these exchange
--   Dict, Method, Prelude     Python's dictionaries, methods that may raise, and shared lemmas
--   Tests                     the theorems at concrete inputs
--
-- How state and operations correspond. A dictionary is an association list in insertion order. An
-- operation is a function by clauses from the object's state to a result or an exception and the
-- new state; what was written before an exception stays written. Every method of a store holds its
-- lock, so that a concurrent use is a sequence of calls: in the model of the runner the other
-- workers' calls, any list of them, come between any two store calls of a run. Clocks, ID
-- factories, waits and signals are functions of the number of the call; so is what a tool's
-- handler, given up at its timeout but not stopped, does to the application during later attempts.
-- Instants are numbers. A confidence is a number with the order of the double; a cost is a
-- parameter with its addition and its comparison.
--
-- Bounds. The retry loops of the job runner and of the tool registry recurse on the attempts that
-- `max_attempts` leaves, which is how often the source's loop can go round, so that no fuel is
-- needed; Tools/Attempts proves of the registry's loop that it never runs out of them. All other
-- loops are on lists.
--
-- Parameters are the code that is not in the repository: SHA-256, regular expressions, lower case,
-- decimal numerals, threads, and the application's handlers, models, hooks and extractors. The
-- agent factory (factory.py) is an interface of the composer: an agent that it builds does not
-- call the composer again while it runs. Not modelled: `resolve_pending` of the runner, the
-- runtime's execution loop and context building, the registries of
-- agents, prompts, policies and providers, the SQLite state store, the providers and the
-- observability sinks.
pub mod Prelude
pub mod Dict
pub mod Method
pub mod Contracts
pub mod Tools
pub mod Composition
pub mod State
pub mod Runtime
pub mod Background
pub mod Governance
pub mod Outcomes
pub mod Tests
