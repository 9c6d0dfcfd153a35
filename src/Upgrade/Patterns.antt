-- ===== src/Upgrade/Patterns.antt =====
-- The regular expressions of identity.go and policy.go, and safeRelativePath. Without flags, `^` and
-- `$` stand for the two ends of the text.
use yorva.Prelude.{
  ℕ, Bool, true, false, not, ◌&&◌, ◌||◌, List, [], ◌∷◌, ◌++◌, Bytes, bytes, same, is_empty,
  has_prefix, contains_byte, if◌then◌else◌, ◌==◌, leb, length, drop,
}
use yorva.Install.Paths.{split_slash}
use yorva.Install.Validate.{all_hex}

abbrev pub is_digit : ℕ → Bool
is_digit c = leb b'0' c && leb c b'9'

abbrev pub is_lower : ℕ → Bool
is_lower c = leb b'a' c && leb c b'z'

abbrev pub is_alnum : ℕ → Bool
is_alnum c = is_digit c || is_lower c || leb b'A' c && leb c b'Z'

-- `[A-Za-z0-9_.-]`
abbrev pub is_name_byte : ℕ → Bool
is_name_byte c = is_alnum c || c == b'_' || c == b'.' || c == b'-'

unfoldable pub all_bytes : (ℕ → Bool) → Bytes → Bool
all_bytes test [] = true
all_bytes test (c ∷ s) = test c && all_bytes test s

-- A text that is not empty, of such bytes: `x+` for a class `x`.
unfoldable pub some_bytes : (ℕ → Bool) → Bytes → Bool
unfolding all_bytes
some_bytes test s = not (is_empty s) && all_bytes test s

-- One byte that is a letter or a digit, and at most `limit` bytes of a class: `[A-Za-z0-9]x{0,limit}`.
unfoldable pub starts_alnum : (ℕ → Bool) → ℕ → Bytes → Bool
unfolding all_bytes
starts_alnum test limit [] = false
starts_alnum test limit (c ∷ s) = is_alnum c && leb (length s) limit && all_bytes test s

-- The parts between the occurrences of a byte.
unfoldable pub split_byte : ℕ → Bytes → Bytes → List Bytes
split_byte sep part [] = part ∷ []
split_byte sep part (c ∷ s) =
    let whole = part ∷ split_byte sep [] s in
    let longer = split_byte sep (part ++ c ∷ []) s in if c == sep then whole else longer

abbrev all_digits : List Bytes → Bool
all_digits (a ∷ b ∷ c ∷ []) =
    some_bytes is_digit a && some_bytes is_digit b && some_bytes is_digit c
all_digits _ = false

-- versionPattern
unfoldable pub version_pattern : Bytes → Bool
unfolding some_bytes split_byte
version_pattern s = all_digits (split_byte b'.' [] s)

-- commitPattern
unfoldable pub commit_pattern : Bytes → Bool
unfolding all_hex
commit_pattern s = length s == 40 && all_hex s

-- sha256Pattern
unfoldable pub sha256_pattern : Bytes → Bool
unfolding all_hex
sha256_pattern s = length s == 64 && all_hex s

abbrev two_names : List Bytes → Bool
two_names (a ∷ b ∷ []) = some_bytes is_name_byte a && some_bytes is_name_byte b
two_names _ = false

-- repositoryPattern
unfoldable pub repository_pattern : Bytes → Bool
unfolding some_bytes split_byte
repository_pattern s = two_names (split_byte b'/' [] s)

-- rootPattern
unfoldable pub root_pattern : Bytes → Bool
unfolding starts_alnum
root_pattern s = starts_alnum is_name_byte 191 s

-- relativePattern
unfoldable pub relative_pattern : Bytes → Bool
unfolding starts_alnum
relative_pattern s = starts_alnum (λ c. is_name_byte c || c == b'/') 255 s

-- generationIDPattern
unfoldable pub generation_id_pattern : Bytes → Bool
unfolding all_bytes
generation_id_pattern s =
    has_prefix s (bytes "gen_")
    && length s == 26
    && all_bytes (λ c. is_digit c || is_lower c) (drop 4 s)

-- closedIDPattern
unfoldable pub closed_id_pattern : Bytes → Bool
unfolding starts_alnum
closed_id_pattern s = starts_alnum (λ c. is_name_byte c || c == b':') 127 s

-- What `..` does to the parts before it, the last one first, in a path that does not start at the
-- root.
up_one : List Bytes → List Bytes
up_one [] = bytes ".." ∷ []
up_one (part ∷ parts) = if same part (bytes "..") then bytes ".." ∷ part ∷ parts else parts

clean_parts : List Bytes → List Bytes → List Bytes
unfolding up_one
clean_parts done [] = done
clean_parts done (part ∷ rest) =
    clean_parts
      (if is_empty part || same part (bytes ".")
        then done
        else if same part (bytes "..")
        then up_one done
        else part ∷ done)
      rest

-- The parts, the last one first, joined by slashes.
join_back : Bytes → List Bytes → Bytes
join_back s [] = s
join_back s (part ∷ parts) = join_back (if is_empty s then part else part ++ b'/' ∷ s) parts

-- path.Clean of a text that does not start with a slash
unfoldable pub clean : Bytes → Bytes
unfolding clean_parts join_back split_slash
clean value =
    let cleaned = join_back [] (clean_parts [] (split_slash value)) in
    if is_empty cleaned then bytes "." else cleaned

-- safeRelativePath. The pattern leaves no white space for strings.TrimSpace to find.
unfoldable pub safe_relative_path : Bytes → Bool
unfolding relative_pattern clean
safe_relative_path value =
    if is_empty value
      || not (relative_pattern value)
      || contains_byte value 92
      || contains_byte value b':'
    then false
    else same (clean value) value
      && not (same (clean value) (bytes "."))
      && not (has_prefix (clean value) (bytes "/"))
      && not (has_prefix (clean value) (bytes "../"))
