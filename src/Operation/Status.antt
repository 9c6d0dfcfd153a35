-- ===== src/Operation/Status.antt =====
-- domain/operation/operation.go: the status machine.
pub mod Machine
use yorva.Prelude.{Bool, true, false, not, ◌&&◌, ◌||◌, if◌then◌else◌}
use yorva.Operation.Types.{Status, status_eq}

-- IsTerminal
unfoldable pub is_terminal : Status → Bool
unfolding status_eq
is_terminal s =
    status_eq s Status.succeeded || status_eq s Status.failed || status_eq s Status.cancelled

transition_from : Status → Status → Bool
unfolding status_eq
transition_from Status.pending to =
    status_eq to Status.running || status_eq to Status.failed || status_eq to Status.cancelled
transition_from Status.running to =
    status_eq to Status.succeeded || status_eq to Status.failed || status_eq to Status.cancelled
transition_from _ to = false

-- ValidTransition
unfoldable pub valid_transition : Status → Status → Bool
unfolding transition_from status_eq
valid_transition from to = if status_eq from to then false else transition_from from to

-- ValidProjectionRepair
unfoldable pub valid_projection_repair : Status → Status → Bool
unfolding is_terminal status_eq
valid_projection_repair from to =
    if status_eq from to || not (is_terminal from)
    then false
    else status_eq to Status.succeeded || status_eq to Status.running

-- ValidStatusChange
unfoldable pub valid_status_change : Status → Status → Bool
unfolding valid_transition valid_projection_repair status_eq
valid_status_change from to =
    status_eq from to || valid_transition from to || valid_projection_repair from to
