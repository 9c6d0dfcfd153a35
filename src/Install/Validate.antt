-- ===== src/Install/Validate.antt =====
-- validateTransaction, validState, validSHA256Hex (transaction.go) and validateActiveRecord
-- (active_pointer.go): what a document on disk has to satisfy.
use yorva.Prelude.{
  ℕ, Bool, true, false, not, ◌&&◌, ◌||◌, [], ◌∷◌, ◌++◌, Bytes, is_empty, length, ◌==◌, leb,
  if◌then◌else◌, Result, ok, err, guard,
}
use yorva.Prelude.Results.{◌>>◌}
use yorva.Install.Types.{TransactionState, BeforeKind}
use yorva.Install.Records.{Err, invalid_record, InstallTransaction, ActiveRecord}
use yorva.Install.Ids.{parse_transaction_id, parse_generation_id}
use yorva.Install.Paths.{validate_staging_rel, validate_generation_rel}

-- The white space of strings.TrimSpace in UTF-8: a byte of its own, or the last of two or three.
closes_space : Bytes → ℕ → Bool
closes_space [] c = c == 32 || leb 9 c && leb c 13
closes_space (p ∷ []) c = p == 0xc2 && (c == 0x85 || c == 0xa0)
closes_space (p ∷ q ∷ _) c =
    p == 0xe1 && q == 0x9a && c == 0x80
    || p == 0xe2 && q == 0x80 && (leb 0x80 c && leb c 0x8a || c == 0xa8 || c == 0xa9 || c == 0xaf)
    || p == 0xe2 && q == 0x81 && c == 0x9f
    || p == 0xe3 && q == 0x80 && c == 0x80

-- Whether a character that is no space yet may go on: its first byte opens one of several bytes.
stays_open : Bytes → ℕ → Bool
stays_open [] c = leb 0xc2 c
stays_open (p ∷ []) c = true
stays_open (p ∷ q ∷ _) c = false

-- The loop over the bytes, with those of a character that has begun.
blank_after : Bytes → Bytes → Bool
unfolding closes_space stays_open
blank_after pending [] = is_empty pending
blank_after pending (c ∷ s) =
    (closes_space pending c || stays_open pending c)
    && blank_after (if closes_space pending c then [] else pending ++ c ∷ []) s

-- `strings.TrimSpace(s) == ""`
unfoldable pub is_blank : Bytes → Bool
unfolding blank_after
is_blank s = blank_after [] s

-- validState
abbrev pub valid_state : TransactionState → Bool
valid_state TransactionState.unset = false
valid_state (TransactionState.other s) = false
valid_state _ = true

unfoldable pub all_hex : Bytes → Bool
all_hex [] = true
all_hex (c ∷ s) = (leb b'0' c && leb c b'9' || leb b'a' c && leb c b'f') && all_hex s

-- validSHA256Hex
unfoldable pub valid_sha256_hex : Bytes → Bool
unfolding all_hex
valid_sha256_hex s = length s == 64 && all_hex s

-- The switch on ActiveBeforeKind.
unfoldable pub validate_before : BeforeKind → Bytes → Bytes → Result Err (Unit {0})
unfolding valid_sha256_hex
validate_before BeforeKind.unset generation digest = do
  if not (is_empty generation) then parse_generation_id generation else ok tt
  guard (is_empty digest || valid_sha256_hex digest) invalid_record
validate_before BeforeKind.absent generation digest =
    guard (is_empty generation && is_empty digest) invalid_record
validate_before BeforeKind.valid generation digest = do
  parse_generation_id generation
  guard (valid_sha256_hex digest) invalid_record
validate_before (BeforeKind.other kind) generation digest = err invalid_record

-- validateTransaction
unfoldable pub validate_transaction : InstallTransaction → Result Err (Unit {0})
unfolding validate_before valid_sha256_hex is_blank
validate_transaction t = do
  guard (t.schema == 1) invalid_record
  parse_transaction_id t.id
  parse_generation_id t.generation_id
  guard (valid_state t.state) invalid_record
  guard (not (is_blank t.runtime_kind)) invalid_record
  validate_staging_rel t.staging_relative_path t.id
  validate_generation_rel t.generation_relative_path t.generation_id
  guard (is_empty t.manifest_sha256 || valid_sha256_hex t.manifest_sha256) invalid_record
  guard (is_empty t.seal_sha256 || valid_sha256_hex t.seal_sha256) invalid_record
  validate_before t.active_before_kind t.active_before_generation t.active_before_digest
  guard (not (t.created_at == 0 || t.updated_at == 0)) invalid_record

-- validateActiveRecord
unfoldable pub validate_active_record : ActiveRecord → Result Err (Unit {0})
unfolding valid_sha256_hex is_blank
validate_active_record r = do
  guard (r.schema == 1) invalid_record
  guard (not (is_blank r.runtime_kind || is_blank r.source_pin || is_blank r.version))
      invalid_record
  parse_generation_id r.generation_id
  parse_transaction_id r.transaction_id
  validate_generation_rel r.generation_relative_path r.generation_id
  guard (valid_sha256_hex r.manifest_sha256 && valid_sha256_hex r.seal_sha256) invalid_record
  guard (not (r.activated_at == 0)) invalid_record
