-- ===== src/Tools/Lifecycle.antt =====
-- What the tool registry keeps of a registered version, over any calls of its changing methods.
use enterprise_agent_harness.Prelude.{
  ℕ, ◌≤◌, String, ◌≡◌, refl, ap, inl, inr, true, false, Option, none, some, List, [], ◌∷◌, arith,
  contains, is_some, Bool-cases, Option-cases, if_case, pair_beq_iff, ◌∙◌, ◌==◌, string_eq, pair_eq,
}
use enterprise_agent_harness.Dict.{Dict, get, put, get-put, get-put_self}
use enterprise_agent_harness.Method.{Method, Result, ok}
use enterprise_agent_harness.Contracts.{AgentLifecycleStatus, lifecycle_eq}
use enterprise_agent_harness.Tools.Definitions.{ToolDefinition}
use enterprise_agent_harness.Tools.Registry.{
  Registry, Stamps, VersionKey, transitions, find, register, set_lifecycle, move, assert_active,
}

-- The stages of a tool version: before its use, in use, deprecated, retired.
abbrev pub stage : AgentLifecycleStatus → ℕ
stage AgentLifecycleStatus.draft = 0
stage AgentLifecycleStatus.validated = 0
stage AgentLifecycleStatus.active = 1
stage AgentLifecycleStatus.suspended = 1
stage AgentLifecycleStatus.deprecated = 2
stage AgentLifecycleStatus.retired = 3

transition-stage :
    (s target : AgentLifecycleStatus)
    → contains target (transitions s) ≡ true
    → stage s ≤ stage target
transition-stage AgentLifecycleStatus.draft target h = omega arith
transition-stage AgentLifecycleStatus.validated target h = omega arith
transition-stage AgentLifecycleStatus.active AgentLifecycleStatus.draft h = absurd (cc)
transition-stage AgentLifecycleStatus.active AgentLifecycleStatus.validated h = absurd (cc)
transition-stage AgentLifecycleStatus.active _ h = omega arith
transition-stage AgentLifecycleStatus.suspended AgentLifecycleStatus.draft h = absurd (cc)
transition-stage AgentLifecycleStatus.suspended AgentLifecycleStatus.validated h = absurd (cc)
transition-stage AgentLifecycleStatus.suspended _ h = omega arith
transition-stage AgentLifecycleStatus.deprecated AgentLifecycleStatus.deprecated h = omega arith
transition-stage AgentLifecycleStatus.deprecated AgentLifecycleStatus.retired h = omega arith
transition-stage AgentLifecycleStatus.deprecated _ h = absurd (cc)
transition-stage AgentLifecycleStatus.retired AgentLifecycleStatus.retired h = omega arith
transition-stage AgentLifecycleStatus.retired _ h = absurd (cc)

-- The calls that change the tools.
pub data Call : Type 0 where
  registering : ToolDefinition → Call
  moving : String → String → AgentLifecycleStatus → Call

-- The version as it is later: only its lifecycle has changed, and not to an earlier stage.
abbrev pub Later : ToolDefinition → Option ToolDefinition → Type 0
Later tool none = ⊥
Later tool (some after) =
    (after ≡ record tool { lifecycle = after.lifecycle })
    × (stage tool.lifecycle ≤ stage after.lifecycle)

Later-trans :
    (tool middle : ToolDefinition) (last : Option ToolDefinition)
    → Later tool (some middle)
    → Later middle last
    → Later tool last
Later-trans tool middle none first second = second
Later-trans tool middle (some last) (same, grows) (same_after, grows_after) = (
  same_after ∙ ap (λ (m : ToolDefinition). record m { lifecycle = last.lifecycle }) same,
  omega arith,
)

same-Later :
    (key : VersionKey) (tool : ToolDefinition) (tools : Dict VersionKey ToolDefinition)
    → get key tools ≡ some tool
    → Later tool (get key tools)
same-Later key tool tools found = rw found (refl, omega arith)

put-Later :
    (at key : VersionKey) (new tool : ToolDefinition) (tools : Dict VersionKey ToolDefinition)
    → get key tools ≡ some tool
    → (at ≡ key → Later tool (some new))
    → Later tool (get key (put at new tools))
put-Later at key new tool tools found later =
    rw (get-put at key new tools) (elim (Bool-cases (at == key)) [
      | inl h ↦ rw h (later ((pair_beq_iff at key).0 h))
      | inr h ↦ rw h (same-Later key tool tools found)
    ])

module _ (stamps : Stamps) where
  abbrev pub perform : Call → Method Registry ToolDefinition
  perform (registering tool) = register stamps tool
  perform (moving tool_id version target) = set_lifecycle stamps tool_id version target

  abbrev pub perform_all : List Call → Registry → Registry
  perform_all [] r = r
  perform_all (call ∷ calls) r = perform_all calls (perform call r).1

  register-Later :
      (new : ToolDefinition) (key : VersionKey) (tool : ToolDefinition) (r : Registry)
      → get key r.tools ≡ some tool
      → Later tool (get key (register stamps new r).1.tools)
  unfolding register
  register-Later new key tool r found =
      elim (Bool-cases (is_some (get (new.tool_id, new.version) r.tools))) [
        | inl taken ↦ rw taken (same-Later key tool r.tools found)
        | inr free ↦ rw free (
            put-Later (new.tool_id, new.version) key new tool r.tools found
              (λ same.
                absurd (let both : get (new.tool_id, new.version) r.tools ≡ some tool = cc in cc)))
      ]

  move-Later :
      (tool_id version : String) (target : AgentLifecycleStatus) (given : Option ToolDefinition)
      (key : VersionKey) (tool : ToolDefinition) (r : Registry)
      → get (tool_id, version) r.tools ≡ given
      → get key r.tools ≡ some tool
      → Later tool (get key (move stamps tool_id version target given r).1.tools)
  move-Later tool_id version target none key tool r at found = same-Later key tool r.tools found
  move-Later tool_id version target (some current) key tool r at found =
      let kept = same-Later key tool r.tools found in
      let Holds : Result ToolDefinition × Registry → Type 0 = λ x. Later tool (get key x.1.tools) in
      elim (Bool-cases (contains target (transitions current.lifecycle))) [
        | inl allowed ↦ rw allowed (
            if_case Holds (target == current.lifecycle) kept (
              put-Later (tool_id, version) key (record current { lifecycle = target }) tool r.tools
                found
                (λ same.
                  let given : get (tool_id, version) r.tools ≡ some tool = cc in
                  let one : current ≡ tool = cc in
                  let grows = transition-stage current.lifecycle target allowed in
                  (
                    ap (λ (m : ToolDefinition). record m { lifecycle = target }) one,
                    rw⁻¹ one grows,
                  ))))
        | inr refused ↦ rw refused kept
      ]

  perform-Later :
      (call : Call) (key : VersionKey) (tool : ToolDefinition) (r : Registry)
      → get key r.tools ≡ some tool
      → Later tool (get key (perform call r).1.tools)
  unfolding set_lifecycle
  perform-Later (registering new) key tool r found = register-Later new key tool r found
  perform-Later (moving tool_id version target) key tool r found =
      move-Later tool_id version target _ key tool r refl found

  -- A registered version is never lost or replaced: after any calls it is as it was registered but
  -- for its lifecycle, which has not gone back to an earlier stage.
  pub perform_all-Later :
      (calls : List Call) (key : VersionKey) (tool : ToolDefinition) (r : Registry)
      → get key r.tools ≡ some tool
      → Later tool (get key (perform_all calls r).tools)
  perform_all-Later [] key tool r found = same-Later key tool r.tools found
  perform_all-Later (call ∷ calls) key tool r found =
      elim (Option-cases (get key (perform call r).1.tools)) [
        | inl h ↦ absurd (rw h at (perform-Later call key tool r found))
        | inr (middle, h) ↦
            Later-trans tool middle _ (rw h at (perform-Later call key tool r found))
              (perform_all-Later calls key middle (perform call r).1 h)
      ]

  -- What `register` accepts, `get` finds under the exact version, and it raises nothing else than
  -- the test of an active lifecycle asks for.
  pub register-find :
      (tool : ToolDefinition) (r : Registry)
      → get (tool.tool_id, tool.version) r.tools ≡ none
      → let after = (register stamps tool r).1 in
        ((register stamps tool r).0 ≡ ok tool)
        × (find tool.tool_id (some tool.version) true after ≡ ok tool)
        × (find tool.tool_id (some tool.version) false after ≡ assert_active tool tool.lifecycle)
  unfolding register find
  register-find tool r free =
      rw (free, get-put_self (tool.tool_id, tool.version) tool r.tools) (refl, refl, refl)
