-- ===== src/App/Worker/Codes.antt =====
-- The code of an installation that failed (runtime_install_run.go).
use yorva.Prelude.{Bool, ◌||◌, Option, none, some, List, [], ◌∷◌, Bytes, bytes, same, if◌then◌else◌}
use yorva.Operation.Errors.{contains}

-- An error of the host: whether errors.Is finds one of the two context errors in it, its message and
-- the code that errors.As finds.
pub record HostError : Type 0 where
  pub deadline_exceeded : Bool
  pub canceled : Bool
  pub message : Bytes
  pub code : Option Bytes

abbrev pub searched_codes : List Bytes
searched_codes =
    bytes "RUNTIME_INSTALL_INTEGRITY_FAILED"
    ∷ bytes "RUNTIME_INSTALL_INSUFFICIENT_DISK"
    ∷ bytes "RUNTIME_INSTALL_SOURCE_UNAVAILABLE"
    ∷ bytes "RUNTIME_INSTALL_PROTOCOL_UNSUPPORTED"
    ∷ bytes "RUNTIME_INSTALL_MANIFEST_MISMATCH"
    ∷ bytes "RUNTIME_INSTALL_TIMEOUT"
    ∷ bytes "RUNTIME_INSTALL_OUTPUT_LIMIT"
    ∷ bytes "RUNTIME_INSTALL_PRIVILEGE_REQUIRED"
    ∷ bytes "RUNTIME_INSTALL_TARGET_OCCUPIED"
    ∷ bytes "RUNTIME_INSTALL_STAGE_FAILED"
    ∷ bytes "RUNTIME_HERMES_NODE_MISSING"
    ∷ bytes "RUNTIME_HERMES_NODE_UNSUPPORTED"
    ∷ bytes "RUNTIME_HERMES_NPM_MISSING"
    ∷ bytes "RUNTIME_HERMES_NPM_UNSUPPORTED"
    ∷ bytes "RUNTIME_HERMES_NODE_ARCHIVE_INTEGRITY_FAILED"
    ∷ bytes "RUNTIME_HERMES_NPM_ARCHIVE_INTEGRITY_FAILED"
    ∷ bytes "RUNTIME_HERMES_NODE_DEPS_FAILED"
    ∷ bytes "RUNTIME_HERMES_NODE_DEPS_TIMEOUT"
    ∷ []

-- The loop of installErrorCodeOr, and what comes after it.
unfoldable pub first_code : Bytes → Bytes → List Bytes → Bytes
unfolding contains
first_code message otherwise [] = otherwise
first_code message otherwise (code ∷ codes) =
    let rest = first_code message otherwise codes in if contains message code then code else rest

-- installErrorCodeOr
unfoldable pub install_error_code_or : HostError → Bytes → Bytes
unfolding first_code
install_error_code_or e fallback =
    first_code e.message (elim e.code [ none ↦ fallback | some code ↦ code ]) searched_codes

-- isRetryableInstall
unfoldable pub is_retryable_install : HostError → Bool
unfolding install_error_code_or
is_retryable_install e =
    let code = install_error_code_or e [] in
    same code (bytes "RUNTIME_INSTALL_SOURCE_UNAVAILABLE")
    || same code (bytes "RUNTIME_INSTALL_TIMEOUT")
    || same code (bytes "RUNTIME_INSTALL_POSTCHECK_FAILED")
    || same code (bytes "RUNTIME_INSTALL_INSUFFICIENT_DISK")
