-- ===== src/Tools/Registry.antt =====
-- tools/registry.py: the versioned tool registry, without the invocation of a tool. A record of a
-- registry change keeps what changes; the other fields of an event are constants.
use enterprise_agent_harness.Prelude.{
  ℕ, ◌+◌, String, Bool, true, false, not, Option, none, some, List, [], ◌∷◌, ◌++◌, keep, contains,
  ◌==◌, Eq, string_eq, pair_eq, is_some, if◌then◌else◌,
}
use enterprise_agent_harness.Dict.{Dict, get, put, values}
use enterprise_agent_harness.Method.{Method, Result, ok, err, value_error, tool_invocation}
use enterprise_agent_harness.Contracts.{
  AgentLifecycleStatus, lifecycle_eq, is_active, ToolResult, ToolExecutionRecord,
}
use enterprise_agent_harness.Tools.Definitions.{ToolDefinition}

abbrev pub VersionKey : Type 0
VersionKey = String × String

-- Tenant, principal, tool, version and the caller's key.
abbrev pub CacheKey : Type 0
CacheKey = String × (String × (String × (String × String)))

instance abbrev pub cache_key_eq : Eq CacheKey
cache_key_eq = pair_eq ⦃f = pair_eq ⦃f = pair_eq ⦃f = pair_eq⦄⦄⦄

pub record IdempotencyEntry : Type 0 where
  pub argument_digest : String
  pub result : ToolResult

pub record RegistryAuditEvent : Type 0 where
  pub event_id : String
  pub operation : String
  pub component_id : String
  pub version : String
  pub from_status : Option AgentLifecycleStatus
  pub to_status : Option AgentLifecycleStatus
  pub occurred_at : ℕ

pub record Registry : Type 0 where
  pub tools : Dict VersionKey ToolDefinition
  pub idempotency : Dict CacheKey IdempotencyEntry
  pub execution_records : List ToolExecutionRecord
  pub events : List RegistryAuditEvent
  pub revision : ℕ

abbrev pub new_registry : Registry
new_registry = record {
  tools = [];
  idempotency = [];
  execution_records = [];
  events = [];
  revision = 0;
}

-- `_TOOL_LIFECYCLE_TRANSITIONS`
abbrev pub transitions : AgentLifecycleStatus → List AgentLifecycleStatus
transitions AgentLifecycleStatus.draft =
    AgentLifecycleStatus.draft ∷ AgentLifecycleStatus.active ∷ AgentLifecycleStatus.retired ∷ []
transitions AgentLifecycleStatus.validated =
    AgentLifecycleStatus.validated ∷ AgentLifecycleStatus.active ∷ AgentLifecycleStatus.retired ∷ []
transitions AgentLifecycleStatus.active =
    AgentLifecycleStatus.active ∷ AgentLifecycleStatus.suspended ∷ AgentLifecycleStatus.deprecated
    ∷ AgentLifecycleStatus.retired ∷ []
transitions AgentLifecycleStatus.suspended =
    AgentLifecycleStatus.suspended ∷ AgentLifecycleStatus.active ∷ AgentLifecycleStatus.deprecated
    ∷ AgentLifecycleStatus.retired ∷ []
transitions AgentLifecycleStatus.deprecated =
    AgentLifecycleStatus.deprecated ∷ AgentLifecycleStatus.retired ∷ []
transitions AgentLifecycleStatus.retired = AgentLifecycleStatus.retired ∷ []

-- `_tool_lifecycle_operation`
abbrev pub status_value : AgentLifecycleStatus → String
status_value AgentLifecycleStatus.draft = "draft"
status_value AgentLifecycleStatus.validated = "validated"
status_value AgentLifecycleStatus.active = "active"
status_value AgentLifecycleStatus.suspended = "suspended"
status_value AgentLifecycleStatus.deprecated = "deprecated"
status_value AgentLifecycleStatus.retired = "retired"

abbrev pub lifecycle_operation : AgentLifecycleStatus → AgentLifecycleStatus → String
lifecycle_operation AgentLifecycleStatus.suspended AgentLifecycleStatus.active = "reactivated"
lifecycle_operation _ AgentLifecycleStatus.active = "activated"
lifecycle_operation _ target = status_value target

-- `_assert_active`
abbrev pub assert_active : ToolDefinition → AgentLifecycleStatus → Result ToolDefinition
assert_active tool AgentLifecycleStatus.active = ok tool
assert_active tool AgentLifecycleStatus.deprecated = err (tool_invocation "tool_deprecated")
assert_active tool AgentLifecycleStatus.suspended = err (tool_invocation "tool_disabled")
assert_active tool AgentLifecycleStatus.retired = err (tool_invocation "tool_retired")
assert_active tool _ = err (tool_invocation "tool_not_active")

abbrev pub candidates : String → Dict VersionKey ToolDefinition → List ToolDefinition
candidates tool_id tools = values (keep (λ entry. entry.0.0 == tool_id) tools)

-- `get` with an exact version.
abbrev pub exact : Bool → Option ToolDefinition → Result ToolDefinition
exact include_inactive none = err (tool_invocation "unknown_tool")
exact true (some tool) = ok tool
exact false (some tool) = assert_active tool tool.lifecycle

-- The one element of the list.
abbrev pub only : List ToolDefinition → Result ToolDefinition
only [] = err (tool_invocation "unknown_tool")
only (tool ∷ []) = ok tool
only (tool ∷ other ∷ tools) = err (tool_invocation "tool_version_required")

-- `get` without a version: the active candidates, then all of them.
abbrev pub only_active : List ToolDefinition → List ToolDefinition → Result ToolDefinition
only_active [] [] = err (tool_invocation "unknown_tool")
only_active [] (tool ∷ tools) = assert_active tool tool.lifecycle
only_active (tool ∷ active) tools = only (tool ∷ active)

unfoldable pub find : String → Option String → Bool → Registry → Result ToolDefinition
find tool_id (some version) include_inactive r =
    exact include_inactive (get (tool_id, version) r.tools)
find tool_id none true r = only (candidates tool_id r.tools)
find tool_id none false r =
    only_active (keep (λ tool. is_active tool.lifecycle) (candidates tool_id r.tools))
      (candidates tool_id r.tools)

-- The clock and the ID factory of the registry, by the revision that they are asked in.
pub record Stamps : Type 0 where
  pub id_factory : ℕ → String
  pub clock : ℕ → ℕ

module _ (stamps : Stamps) where
  -- `_changed`, with the tools as they are after the change.
  abbrev pub changed :
      Dict VersionKey ToolDefinition
      → String
      → VersionKey
      → Option AgentLifecycleStatus
      → AgentLifecycleStatus
      → Registry
      → Registry
  changed tools operation (tool_id, version) from_status to_status r = record r {
    tools = tools;
    revision = r.revision + 1;
    events =
        r.events
        ++ (record {
          event_id = stamps.id_factory r.revision;
          operation = operation;
          component_id = tool_id;
          version = version;
          from_status = from_status;
          to_status = some to_status;
          occurred_at = stamps.clock r.revision;
        })
          ∷ [];
  }

  unfoldable pub register : ToolDefinition → Method Registry ToolDefinition
  register tool r =
      if is_some (get (tool.tool_id, tool.version) r.tools) then (err value_error, r) else (
        ok tool,
        changed (put (tool.tool_id, tool.version) tool r.tools) "registered"
            (tool.tool_id, tool.version) none tool.lifecycle r,
      )

  -- `_set_lifecycle`, after the lookup.
  abbrev pub move :
      String
      → String
      → AgentLifecycleStatus
      → Option ToolDefinition
      → Method Registry ToolDefinition
  move tool_id version target none r = (err (tool_invocation "unknown_tool"), r)
  move tool_id version target (some current) r =
      let updated : ToolDefinition = record current { lifecycle = target } in
      if not (contains target (transitions current.lifecycle))
      then (err (tool_invocation "invalid_lifecycle_transition"), r)
      else if target == current.lifecycle
      then (ok current, r)
      else (
        ok updated,
        changed (put (tool_id, version) updated r.tools)
            (lifecycle_operation current.lifecycle target) (tool_id, version)
            (some current.lifecycle) target r,
      )

  unfoldable pub set_lifecycle :
      String → String → AgentLifecycleStatus → Method Registry ToolDefinition
  set_lifecycle tool_id version target r =
      move tool_id version target (get (tool_id, version) r.tools) r
