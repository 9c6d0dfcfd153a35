-- ===== src/Install/Paths.antt =====
-- paths.go: relative paths inside the managed root.
pub mod Contained
use yorva.Prelude.{
  ℕ, ◌+◌, Bool, true, false, not, ◌&&◌, ◌||◌, List, [], ◌∷◌, ◌++◌, Bytes, bytes, same, is_empty,
  has_prefix, contains_byte, ◌==◌, if◌then◌else◌, Result, ok, err,
}
use yorva.Prelude.Results.{◌>>=◌, ◌>>◌}
use yorva.Install.Records.{Err, invalid_relative_path, path_not_contained}
use yorva.Install.Ids.{parse_transaction_id, parse_generation_id}

abbrev pub dir_control : Bytes
dir_control = bytes "control"

abbrev pub dir_generations : Bytes
dir_generations = bytes "generations"

abbrev pub dir_staging : Bytes
dir_staging = bytes "staging"

abbrev pub dir_failed : Bytes
dir_failed = bytes "failed"

abbrev slash : ℕ
slash = b'/'

abbrev backslash : ℕ
backslash = 92

-- StagingRel
unfoldable pub staging_rel : Bytes → Bytes
staging_rel txn_id = dir_staging ++ (slash ∷ txn_id)

-- GenerationRel
unfoldable pub generation_rel : Bytes → Bytes
generation_rel gen_id = dir_generations ++ (slash ∷ gen_id)

put_first : ℕ → List Bytes → List Bytes
put_first c [] = (c ∷ []) ∷ []
put_first c (part ∷ parts) = (c ∷ part) ∷ parts

-- strings.Split(rel, "/")
unfoldable pub split_slash : Bytes → List Bytes
unfolding put_first
split_slash [] = [] ∷ []
split_slash (c ∷ cs) =
    let rest = split_slash cs in if c == slash then [] ∷ rest else put_first c rest

unfoldable pub is_dots : Bytes → Bool
is_dots part = is_empty part || same part (bytes ".") || same part (bytes "..")

unfoldable pub any_dots : List Bytes → Bool
unfolding is_dots
any_dots [] = false
any_dots (part ∷ parts) = is_dots part || any_dots parts

-- `len(rel) >= 2 && rel[1] == ':'`
abbrev has_drive : Bytes → Bool
has_drive (a ∷ b ∷ cs) = b == b':'
has_drive _ = false

-- rejectUnsafeRel. filepath.IsAbs adds nothing to the test: an absolute path starts with a
-- separator or a drive, and the same error is returned for these.
unfoldable pub reject_unsafe_rel : Bytes → Result Err (Unit {0})
unfolding split_slash any_dots
reject_unsafe_rel rel =
    if is_empty rel
    then err invalid_relative_path
    else if has_prefix rel (bytes "/") || has_prefix rel (backslash ∷ [])
    then err path_not_contained
    else if has_drive rel
    then err path_not_contained
    else if contains_byte rel backslash || contains_byte rel 0
    then err invalid_relative_path
    else if any_dots (split_slash rel)
    then err invalid_relative_path
    else ok tt

-- requireExactRel
unfoldable pub require_exact_rel : Bytes → Bytes → Result Err (Unit {0})
unfolding reject_unsafe_rel
require_exact_rel rel want = do
  reject_unsafe_rel rel
  if not (same rel want) then err invalid_relative_path else ok tt

-- ValidateStagingRel
unfoldable pub validate_staging_rel : Bytes → Bytes → Result Err (Unit {0})
unfolding require_exact_rel parse_transaction_id staging_rel
validate_staging_rel rel txn_id = do
  parse_transaction_id txn_id
  require_exact_rel rel (staging_rel txn_id)

-- ValidateGenerationRel
unfoldable pub validate_generation_rel : Bytes → Bytes → Result Err (Unit {0})
unfolding require_exact_rel parse_generation_id generation_rel
validate_generation_rel rel gen_id = do
  parse_generation_id gen_id
  require_exact_rel rel (generation_rel gen_id)
