-- ===== src/Composition/Ceilings.antt =====
-- The ceilings of a delegation: tools, permissions, risk and steps never beyond the parent's.
use enterprise_agent_harness.Prelude.{
  ◌≤◌, String, ◌≡◌, refl, inl, inr, Bool, true, false, ◌&&◌, not, Option, none, some, List, [], ◌∷◌,
  arith, keep, map, contains, subset, nonempty, ◌==◌, string_eq, eq_iff, or_else, Bool-cases,
  if_case, if_split, beq_refl,
}
use enterprise_agent_harness.Method.{Result, ok, err}
use enterprise_agent_harness.Contracts.{RiskLevel, risk_order, risk_exceeds, ExecutionContext}
use enterprise_agent_harness.Outcomes.{sorted_set}
use enterprise_agent_harness.Outcomes.References.{contains-sorted_set}
use enterprise_agent_harness.Composition.Contracts.{DelegationRequest, BuiltAgent}
use enterprise_agent_harness.Composition.Limits.{
  Ceiling, split_at, child_ids, selected_ids, exact_versions, tool_ceiling, permission_ceiling,
  required_permissions, min_risk, risk_ceiling, ceiling_risk, ceiling_tools, ceiling,
}

-- Membership, which `subset` is an order by.
subset_intro :
    (xs ys : List String)
    → ((a : String) → contains a xs ≡ true → contains a ys ≡ true)
    → subset xs ys ≡ true
subset_intro [] ys h = refl
subset_intro (x ∷ xs) ys h =
    let first = h x (ground (arith, beq_refl x)) in
    let rest = subset_intro xs ys (λ a i. h a (ground (arith, i))) in ground (arith, first, rest)

subset-contains :
    (a : String) (xs ys : List String)
    → subset xs ys ≡ true
    → contains a xs ≡ true
    → contains a ys ≡ true
subset-contains a [] ys h i = absurd (cc)
subset-contains a (x ∷ xs) ys h i = grind (arith, eq_iff x a, subset-contains a xs ys)

subset_self : (xs : List String) → subset xs xs ≡ true
subset_self xs = subset_intro xs xs (λ a i. i)

contains-keep :
    (p : String → Bool) (a : String) (xs : List String) → contains a (keep p xs) ≡ true → p a ≡ true
contains-keep p a [] i = absurd (cc)
contains-keep p a (x ∷ xs) i = grind (arith, eq_iff x a, contains-keep p a xs)

contains-map :
    (f : String → String) (b : String) (xs ys : List String)
    → ((a : String) → contains a xs ≡ true → contains (f a) ys ≡ true)
    → contains b (map f xs) ≡ true
    → contains b ys ≡ true
contains-map f b [] ys h i = absurd (cc)
contains-map f b (x ∷ xs) ys h i = elim (Bool-cases (f x == b)) [
  | inl same ↦
      let at : f x ≡ b = (eq_iff _ _).0 same in let found = h x (ground (arith, beq_refl x)) in cc
  | inr other ↦ contains-map f b xs ys (λ a j. h a (ground (arith, j))) (ground (arith, i, other))
]

-- What the ceiling of the child keeps to.
abbrev pub CeilingHeld : ExecutionContext → Result Ceiling → Type 0
CeilingHeld parent (err e) = Unit
CeilingHeld parent (ok limits) =
    (subset limits.tool_ids parent.authorized_tool_ids ≡ true)
    × (subset limits.tool_versions parent.authorized_tool_versions ≡ true)
    × (subset limits.permissions parent.granted_permissions ≡ true)
    × (risk_order limits.risk_level ≤ risk_order parent.max_risk_level)
    × (limits.max_steps ≤ parent.max_steps)
    × (subset (required_permissions limits.child.trusted_tool_permissions limits.tool_versions)
          parent.granted_permissions
        ≡ true)

module _ (parent : ExecutionContext) (child : BuiltAgent) (request : DelegationRequest) where
  versions_held :
      (reference : String)
      → contains reference (exact_versions parent child request) ≡ true
      → (contains (split_at reference) (selected_ids parent child request) ≡ true)
        × (contains reference parent.authorized_tool_versions ≡ true)
  versions_held reference i =
      let held =
        contains-keep
          (λ r.
            contains (split_at r) (selected_ids parent child request)
            && contains r parent.authorized_tool_versions)
          reference child.trusted_allowed_tool_versions
          (rw⁻¹ (contains-sorted_set reference _) i) in
      ground (arith, held)

  selected_held :
      (id : String)
      → subset request.requested_tool_ids parent.authorized_tool_ids ≡ true
      → contains id (selected_ids parent child request) ≡ true
      → contains id parent.authorized_tool_ids ≡ true
  selected_held id within i = elim (Bool-cases (nonempty request.requested_tool_ids)) [
    | inl h ↦
        subset-contains id request.requested_tool_ids parent.authorized_tool_ids within (rw h at i)
    | inr h ↦
        contains-keep (λ j. contains j parent.authorized_tool_ids) id (child_ids child) (rw h at i)
  ]

  -- The tools and the versions are the parent's.
  abbrev ToolsHeld : Result (List String × List String) → Type 0
  ToolsHeld (err e) = Unit
  ToolsHeld (ok tools) =
      (subset tools.0 parent.authorized_tool_ids ≡ true)
      × (subset tools.1 parent.authorized_tool_versions ≡ true)

  exact-ToolsHeld :
      subset request.requested_tool_ids parent.authorized_tool_ids ≡ true
      → let versions = exact_versions parent child request in
        ToolsHeld (ok (sorted_set (map split_at versions), versions))
  exact-ToolsHeld within =
      let versions = exact_versions parent child request in
      (
        subset_intro (sorted_set (map split_at versions)) parent.authorized_tool_ids (λ id i.
            contains-map split_at id versions parent.authorized_tool_ids
              (λ reference j.
                selected_held (split_at reference) within (versions_held reference j).0)
              (rw (contains-sorted_set id (map split_at versions)) at i)),
        subset_intro versions parent.authorized_tool_versions
            (λ reference i. (versions_held reference i).1),
      )

  tool_ceiling-ToolsHeld : ToolsHeld (tool_ceiling parent child request)
  unfolding tool_ceiling
  tool_ceiling-ToolsHeld =
      if_case ToolsHeld (not (subset request.requested_tool_ids (child_ids child))) tt (
        if_split ToolsHeld (not (subset request.requested_tool_ids parent.authorized_tool_ids))
          (λ refused. tt)
          (λ passed.
            if_case ToolsHeld
              (nonempty (selected_ids parent child request)
                && not (nonempty parent.authorized_tool_versions))
              tt
              (if_case ToolsHeld
                (nonempty (selected_ids parent child request)
                  && not (nonempty (exact_versions parent child request)))
                tt (exact-ToolsHeld (ground (arith, passed))))))

  permissions_held :
      nonempty request.requested_permissions
          && not (subset request.requested_permissions parent.granted_permissions)
        ≡ false
      → subset (permission_ceiling parent request) parent.granted_permissions ≡ true
  permissions_held h = elim (Bool-cases (nonempty request.requested_permissions)) [
    | inl given ↦ rw given (ground (arith, given, h))
    | inr none_given ↦ rw none_given (subset_self parent.granted_permissions)
  ]

  abbrev RiskHeld : Result RiskLevel → Type 0
  RiskHeld (err e) = Unit
  RiskHeld (ok risk) = risk_order risk ≤ risk_order parent.max_risk_level

  min_risk-bound : (a b : RiskLevel) → risk_order (min_risk a b) ≤ risk_order b
  min_risk-bound a b = ground arith

  risk_ceiling-RiskHeld : RiskHeld (risk_ceiling parent child request)
  unfolding risk_ceiling
  risk_ceiling-RiskHeld =
      let requested = or_else request.max_risk_level child.trusted_risk_level in
      if_case RiskHeld (risk_exceeds child.trusted_risk_level parent.max_risk_level) tt (
        if_case RiskHeld (risk_exceeds requested parent.max_risk_level) tt
          (min_risk-bound (min_risk child.trusted_risk_level requested) parent.max_risk_level))

  risk-CeilingHeld :
      (path : List String) (tools : List String × List String) (risk : Result RiskLevel)
      → ToolsHeld (ok tools)
      → subset (permission_ceiling parent request) parent.granted_permissions ≡ true
      → subset
          (required_permissions child.trusted_tool_permissions tools.1)
          (permission_ceiling parent request)
        ≡ true
      → RiskHeld risk
      → CeilingHeld parent (ceiling_risk parent request child path tools risk)
  risk-CeilingHeld path tools (err e) held granted required low = tt
  risk-CeilingHeld path (ids, versions) (ok risk) (ids_held, versions_held) granted required low = (
    ids_held,
    versions_held,
    granted,
    low,
    ground arith,
    subset_intro _ parent.granted_permissions
        (λ a i. subset-contains a _ _ granted (subset-contains a _ _ required i)),
  )

  tools-CeilingHeld :
      (path : List String) (tools : Result (List String × List String))
      → ToolsHeld tools
      → subset (permission_ceiling parent request) parent.granted_permissions ≡ true
      → CeilingHeld parent (ceiling_tools parent request child path tools)
  tools-CeilingHeld path (err e) held granted = tt
  tools-CeilingHeld path (ok tools) held granted =
      if_split (CeilingHeld parent)
        (not (
          subset (required_permissions child.trusted_tool_permissions tools.1)
            (permission_ceiling parent request)))
        (λ refused. tt)
        (λ passed.
          risk-CeilingHeld path tools _ held granted (ground (arith, passed)) risk_ceiling-RiskHeld)

-- Whatever child the factory has, its ceiling keeps to the parent.
pub ceiling-CeilingHeld :
    (parent : ExecutionContext) (request : DelegationRequest) (path : List String)
    (child : Option BuiltAgent)
    → nonempty request.requested_permissions
        && not (subset request.requested_permissions parent.granted_permissions)
      ≡ false
    → CeilingHeld parent (ceiling parent request path child)
unfolding ceiling
ceiling-CeilingHeld parent request path none passed = tt
ceiling-CeilingHeld parent request path (some child) passed =
    tools-CeilingHeld parent child request path (tool_ceiling parent child request)
      (tool_ceiling-ToolsHeld parent child request) (permissions_held parent child request passed)
