-- ===== src/Install/Disk.antt =====
-- The state that the install subsystem keeps on disk and in the user environment, as it observes
-- it, and computations over it that may fail.
--
-- A file is what it decodes to and its SHA-256. A write takes its fate from a list: it is made, it
-- fails before it has any effect, or it has its effect and then reports an error. An empty list
-- lets every write succeed. Reading what is there does not fail, and the clock gives one time.
pub mod Frame
pub mod Steps
use yorva.Prelude.{
  ℕ, Bool, true, false, not, ◌&&◌, ◌||◌, Option, none, some, List, [], ◌∷◌, Bytes, same, is_empty,
  has_prefix, if◌then◌else◌, Result, ok, err,
}
use yorva.Install.Records.{
  Err, io, InstallTransaction, ActiveRecord, CandidateRecord, ManifestEntry, ManifestFile,
  GenerationRecord,
}
use yorva.Install.Environment.{Platform, ObservedEnvironment}

-- A regular file: its decoded document, if it is one, and its SHA-256 in hexadecimal.
pub record Stored (A : Type 0) : Type 0 where
  pub content : Option A
  pub sha : Bytes

-- What stands at a path under staging/, generations/ or failed/. `payload` is what the walk of
-- seal.go finds besides the two files of the seal, or `none` where the walk meets a link or an
-- irregular file; `subdirectories` says whether there are directories in it.
pub record Tree : Type 0 where
  pub directory : Bool
  pub reparse : Bool
  pub subdirectories : Bool
  pub generation : Option (Stored GenerationRecord)
  pub manifest : Option (Stored ManifestFile)
  pub candidate : Option CandidateRecord
  pub payload : Option (List ManifestEntry)

-- An entry of control/transactions; `content` is the document that it decodes to.
pub record TransactionFile : Type 0 where
  pub name : Bytes
  pub directory : Bool
  pub content : Option InstallTransaction

-- control/active.json: `plain` says that it is a regular file of at most 64 KiB and no link.
pub record ActiveFile : Type 0 where
  pub plain : Bool
  pub content : Option ActiveRecord

pub data Fate : Type 0 where
  made lost late : Fate

pub record Disk : Type 0 where
  pub platform : Platform
  pub clock : ℕ
  pub fates : List Fate
  pub reparse : Bool
  pub transactions : List TransactionFile
  pub active : Option ActiveFile
  pub staging : List (Bytes × Tree)
  pub generations : List (Bytes × Tree)
  pub failed : List (Bytes × Tree)
  pub other_directories : List Bytes
  pub environment : Option ObservedEnvironment

abbrev pub M : Type 0 → Type 0
M A = Disk → Result Err A × Disk

module _ {A : Type 0} where
  unfoldable pub pure : A → M A
  pure a d = (ok a, d)

  unfoldable pub raise : Err → M A
  raise e d = (err e, d)

  -- A result that is read off the disk.
  unfoldable pub reads : (Disk → Result Err A) → M A
  reads f d = (f d, d)

module _ {A B : Type 0} where
  abbrev pub continue : Result Err A → (A → M B) → M B
  continue (ok a) f d = f a d
  continue (err e) f d = (err e, d)

  infixl 5 ◌>>=◌ ◌>>◌
  unfoldable pub ◌>>=◌ : M A → (A → M B) → M B
  ◌>>=◌ m f d = let (r, d') = m d in continue r f d'

  abbrev pub ◌>>◌ : M A → M B → M B
  m >> n = m >>= λ _. n

pub fated : Fate → (Disk → Disk) → M (Unit {0})
fated Fate.made change d = (ok tt, change d)
fated Fate.lost change d = (err io, d)
fated Fate.late change d = (err io, change d)

pub write_with : List Fate → (Disk → Disk) → M (Unit {0})
unfolding fated
write_with [] change d = (ok tt, change d)
write_with (fate ∷ rest) change d = fated fate change (record d { fates = rest })

-- One write to the disk or to the environment.
unfoldable pub write : (Disk → Disk) → M (Unit {0})
unfolding write_with
write change d = write_with d.fates change d

module _ {A : Type 0} where
  -- The entry of a directory by its name.
  unfoldable pub find : Bytes → List (Bytes × A) → Option A
  find name [] = none
  find name ((n, a) ∷ rest) = if same n name then some a else find name rest

  -- A directory without an entry.
  unfoldable pub remove : Bytes → List (Bytes × A) → List (Bytes × A)
  remove name [] = []
  remove name ((n, a) ∷ rest) =
      let others = remove name rest in if same n name then others else (n, a) ∷ others
