-- ===== src/App/Preflight.antt =====
-- What the service decides before it creates anything: keys, retries and the discovery's verdict.
use yorva.Prelude.{
  Bool, true, false, not, ◌&&◌, ◌||◌, [], ◌∷◌, Bytes, bytes, same, is_empty, if◌then◌else◌, ltb,
  length, Result, ok, err,
}
use yorva.Operation.Types.{Status, status_eq, Operation}
use yorva.Operation.Queries.{is_install}
use yorva.App.Node.{InstallError}

-- The loop of ValidateIdempotencyKey; a character above 126 is refused byte by byte just as well,
-- since its bytes are above 126.
unfoldable pub printable : Bytes → Bool
printable [] = true
printable (c ∷ s) = if ltb c 33 || ltb 126 c then false else printable s

-- ValidateIdempotencyKey
unfoldable pub validate_idempotency_key : Bytes → Result InstallError (Unit {0})
unfolding printable
validate_idempotency_key value =
    if ltb (length value) 1 || ltb 128 (length value)
    then err InstallError.invalid_idempotency_key
    else if printable value
    then ok tt
    else err InstallError.invalid_idempotency_key

pub data DiscoveryState : Type 0 where
  not_installed supported unsupported broken_executable : DiscoveryState
  malformed_version timed_out ambiguous : DiscoveryState
  other : Bytes → DiscoveryState

pub record PreflightDecision : Type 0 where
  pub allow : Bool
  pub code : Bytes
  pub retryable : Bool

-- RetryEligible
unfoldable pub retry_eligible : Operation → Bool
retry_eligible latest =
    if is_empty latest.id || not (is_install latest.operation_type)
    then false
    else if not (status_eq latest.status Status.failed)
        && not (status_eq latest.status Status.cancelled)
    then false
    else latest.retryable

-- RetryEligibleForPin
unfoldable pub retry_eligible_for_pin : Operation → Bytes → Bool
unfolding retry_eligible
retry_eligible_for_pin latest expected_pin =
    if not (retry_eligible latest)
    then false
    else if is_empty expected_pin
        || is_empty latest.source_pin
        || is_empty latest.ownership_nonce
        || not (same latest.source_pin expected_pin)
    then false
    else true

abbrev pub refuse : Bytes → Bool → PreflightDecision
refuse code retryable = record { allow = false; code = code; retryable = retryable }

abbrev pub allowed : PreflightDecision
allowed = record { allow = true; code = []; retryable = false }

-- DecideInstallPreflight
unfoldable pub decide_install_preflight : DiscoveryState → Operation → PreflightDecision
unfolding retry_eligible
decide_install_preflight DiscoveryState.not_installed latest = allowed
decide_install_preflight DiscoveryState.supported latest =
    refuse (bytes "RUNTIME_INSTALL_ALREADY_PRESENT") false
decide_install_preflight DiscoveryState.broken_executable latest =
    if retry_eligible latest then allowed else refuse (bytes "RUNTIME_INSTALL_STATE_CONFLICT") false
decide_install_preflight DiscoveryState.timed_out latest =
    refuse (bytes "RUNTIME_DISCOVERY_TIMEOUT") true
decide_install_preflight _ latest = refuse (bytes "RUNTIME_INSTALL_STATE_CONFLICT") false
