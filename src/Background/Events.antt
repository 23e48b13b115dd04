-- ===== src/Background/Events.antt =====
-- background/events.py: the event envelope. `hashlib.sha256(...).hexdigest()` is the parameter
-- `sha256`, on the text that is hashed. The payload, which only its digest leaves, and the
-- metadata are left out.
use Prim.Native.String.{◌++◌ as append}
use enterprise_agent_harness.Prelude.{String, Option, or_else}

pub data EventDisposition : Type 0 where
  completed duplicate failed dead_lettered cancelled pending_approval lease_conflict :
      EventDisposition

pub data FailureCategory : Type 0 where
  retryable_transient permanent cancelled budget_exhausted approval_required lease_lost :
      FailureCategory

pub record EventEnvelope : Type 0 where
  pub event_id : String
  pub event_type : String
  pub source : String
  pub correlation_id : Option String
  pub causation_id : Option String
  pub deduplication_key : Option String

abbrev pub trigger_id : EventEnvelope → String
trigger_id event = append event.source (append ":" event.event_type)

-- `event.correlation_id or f"event:{event.event_id}"`; a correlation ID is not empty.
abbrev pub correlation : EventEnvelope → String
correlation event = or_else event.correlation_id (append "event:" event.event_id)

module _ (sha256 : String → String) where
  unfoldable pub dedup_key : EventEnvelope → String
  dedup_key event = or_else event.deduplication_key (
      sha256
        (append event.source (append "\0" (append event.event_type (append "\0" event.event_id)))))
