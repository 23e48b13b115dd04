-- ===== src/Governance/Approvals/Evidence.antt =====
-- When a broker's decisions are evidence for its requests, and what storing, expiring and looking up
-- do to that.
use enterprise_agent_harness.Prelude.{
  String, ◌≡◌, refl, ap, sym, ◌∙◌, ◌⊎◌, inl, inr, Bool, true, false, Option, none, some, arith,
  string_eq, eq_iff,
}
use enterprise_agent_harness.Dict.{Dict, get, put, get-put}
use enterprise_agent_harness.Governance.Approvals.Requests.{
  ApprovalRequest, ApprovalDecision, is_expired,
}
use enterprise_agent_harness.Governance.Approvals.Broker.{
  Broker, Source, expire, expire_if, current, decision_locked,
}

-- A request stored under its ID, and a decision that carries the digest of its action.
pub record Answers {R : Type 0} (b : Broker R) (k : String) (d : ApprovalDecision) : Type 0 where
  pub request : ApprovalRequest R
  pub stored : get k b.requests ≡ some request
  pub same_action : d.action_digest ≡ request.action_digest

pub record IsSound {R : Type 0} (b : Broker R) : Type 0 where
  pub keyed : (k : String) (r : ApprovalRequest R) → get k b.requests ≡ some r → r.request_id ≡ k
  pub answers : (k : String) (d : ApprovalDecision) → get k b.decisions ≡ some d → Answers b k d

put_cases :
    {V : Type 0} (id k : String) (v : V) (entries : Dict String V) {x : V}
    → get k (put id v entries) ≡ some x
    → ((id ≡ k) × (v ≡ x)) ⊎ (get k entries ≡ some x)
put_cases id k v entries h = grind (arith, get-put, eq_iff id k)

module _ {R : Type 0} where
  -- Storing a decision for a stored request, with the digest of its action.
  pub put-IsSound :
      {b b' : Broker R} (id : String) (r : ApprovalRequest R) (new : ApprovalDecision)
      → IsSound b
      → get id b.requests ≡ some r
      → new.action_digest ≡ r.action_digest
      → b'.requests ≡ b.requests
      → b'.decisions ≡ put id new b.decisions
      → IsSound b'
  put-IsSound {b} {b'} id r new s h same p q = record {
    keyed = λ k x g. s.keyed k x (cc);
    answers = λ k d g. elim (put_cases id k new b.decisions (ap (get k) (sym q) ∙ g)) [
      | inl e ↦ record { request = r; stored = cc; same_action = cc }
      | inr e ↦
          let a = s.answers k d e in
          record { request = a.request; stored = cc; same_action = a.same_action }
    ];
  }

  -- A broker with the same requests and the same decisions.
  pub same-IsSound :
      {b b' : Broker R}
      → IsSound b
      → b'.requests ≡ b.requests
      → b'.decisions ≡ b.decisions
      → IsSound b'
  same-IsSound s p q = record {
    keyed = λ k x g. s.keyed k x (cc);
    answers = λ k d g.
        let a = s.answers k d (cc) in
        record { request = a.request; stored = cc; same_action = a.same_action };
  }

  pub added-IsSound :
      (request : ApprovalRequest R) (b : Broker R)
      → IsSound b
      → get request.request_id b.requests ≡ none
      → IsSound (record b { requests = put request.request_id request b.requests })
  added-IsSound request b s h = record {
    keyed = λ k r g. elim (put_cases request.request_id k request b.requests g) [
      | inl e ↦ cc
      | inr e ↦ s.keyed k r e
    ];
    answers = λ k d g.
        let a = s.answers k d g in
        record {
          request = a.request;
          stored = grind (arith, get-put, eq_iff request.request_id k, h, a.stored);
          same_action = a.same_action;
        };
  }

module _ {R : Type 0} (source : Source) where
  pub expire-IsSound :
      (id : String) (r : ApprovalRequest R) (b : Broker R)
      → IsSound b
      → get id b.requests ≡ some r
      → IsSound (expire source id r b).1
  unfolding expire
  expire-IsSound id r b s h = put-IsSound id r _ s h refl refl refl

  expired-IsSound :
      (expired : Bool) (id : String) (r : ApprovalRequest R) (b : Broker R)
      → IsSound b
      → get id b.requests ≡ some r
      → IsSound (expire_if source expired id r b).1
  expired-IsSound false id r b s h = s
  expired-IsSound true id r b s h = expire-IsSound id r b s h

  current-IsSound :
      (id : String) (found : Option ApprovalDecision) (request : Option (ApprovalRequest R))
      (b : Broker R)
      → IsSound b
      → get id b.requests ≡ request
      → IsSound (current source id found request b).1
  current-IsSound id (some d) request b s h = s
  current-IsSound id none none b s h = s
  current-IsSound id none (some r) b s h =
      expired-IsSound (is_expired r.expires_at (source.clock b.ticks)) id r _
        (same-IsSound s refl refl) h

  pub decision_locked-IsSound :
      (id : String) (b : Broker R) → IsSound b → IsSound (decision_locked source id b).1
  unfolding decision_locked
  decision_locked-IsSound id b s = current-IsSound id _ _ b s refl
