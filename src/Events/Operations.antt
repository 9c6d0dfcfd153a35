-- ===== src/Events/Operations.antt =====
-- events/operation.go: the events of operations. The encoding of a payload is an argument; it does
-- not fail on these fields.
use yorva.Prelude.{ℕ, Bool, [], Bytes, bytes, same, if◌then◌else◌, ◌==◌}
use yorva.Events.Broker.{Event}

pub record OperationPayload : Type 0 where
  pub operation_id : Bytes
  pub operation_type : Bytes
  pub status : Bytes
  pub stage : Bytes
  pub error_code : Bytes
  pub correlation_id : Bytes

-- NewOperationEvent; the event keeps the time `now`, or takes that of the clock where it is zero
unfoldable pub new_operation_event :
    (OperationPayload → Bytes) → ℕ → Bytes → OperationPayload → ℕ → Event
new_operation_event encode clock event_type payload now = record {
  id = [];
  event_type = event_type;
  occurred_at = if now == 0 then clock else now;
  payload = encode payload;
}

-- TypeForCommittedOperation
unfoldable pub type_for_committed_operation : Bool → Bytes → Bytes → Bytes
type_for_committed_operation created previous_status next_status =
    if same next_status (bytes "SUCCEEDED")
    then bytes "operation.completed"
    else if same next_status (bytes "FAILED")
    then bytes "operation.failed"
    else if same next_status (bytes "CANCELLED")
    then bytes "operation.cancelled"
    else if created
    then bytes "operation.started"
    else bytes "operation.progress"
