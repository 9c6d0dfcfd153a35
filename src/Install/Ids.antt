-- ===== src/Install/Ids.antt =====
-- ids.go: the closed identifiers of transactions and generations.
pub mod Fresh
use yorva.Prelude.{
  ℕ, zero, suc, ◌+◌, ◌%◌, Bool, true, false, not, ◌&&◌, ◌||◌, List, [], ◌∷◌, ◌++◌, map, Bytes,
  bytes, has_prefix, contains_byte, ◌==◌, if◌then◌else◌, length, drop, get_or, Result, ok, err, ◌≡◌,
  arith,
}
use yorva.Install.Records.{Err, invalid_id}

abbrev pub id_alphabet : Bytes
id_alphabet = bytes "abcdefghijklmnopqrstuvwxyz234567"

abbrev pub id_body_len : ℕ
id_body_len = 22

abbrev pub txn_prefix : Bytes
txn_prefix = bytes "txn_"

abbrev pub gen_prefix : Bytes
gen_prefix = bytes "gen_"

abbrev pub txn_file_suffix : Bytes
txn_file_suffix = bytes ".json"

-- The loop of parseClosedID over the bytes behind the prefix.
unfoldable pub all_in_alphabet : Bytes → Bool
all_in_alphabet [] = true
all_in_alphabet (c ∷ cs) = contains_byte id_alphabet c && all_in_alphabet cs

-- parseClosedID
unfoldable pub parse_closed_id : Bytes → Bytes → Result Err (Unit {0})
parse_closed_id id prefix =
    if not (length id == length prefix + id_body_len) || not (has_prefix id prefix)
    then err invalid_id
    else if all_in_alphabet (drop (length prefix) id)
    then ok tt
    else err invalid_id

-- ParseTransactionID
unfoldable pub parse_transaction_id : Bytes → Result Err (Unit {0})
unfolding parse_closed_id
parse_transaction_id id = parse_closed_id id txn_prefix

-- ParseGenerationID
unfoldable pub parse_generation_id : Bytes → Result Err (Unit {0})
unfolding parse_closed_id
parse_generation_id id = parse_closed_id id gen_prefix

-- The loop of newClosedID over the random bytes.
unfoldable pub id_body : Bytes → Bytes
id_body = map (λ b. get_or id_alphabet (b % length id_alphabet) 0)

-- newClosedID, given the bytes that rand.Read has filled its array with.
unfoldable pub new_closed_id : Bytes → Bytes → Bytes
unfolding id_body
new_closed_id prefix random = prefix ++ id_body random

-- OccupiesReservedTxnName
unfoldable pub occupies_reserved_txn_name : Bytes → Bool
occupies_reserved_txn_name name = has_prefix name txn_prefix

-- transactionFileName
unfoldable pub transaction_file_name : Bytes → Bytes
transaction_file_name id = id ++ txn_file_suffix
