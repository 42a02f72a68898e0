-- ===== src/Loser/Commands.antt =====
-- MP1/main.c: the commands. `none` is undefined behaviour. Paths are left out: a command works
-- on one directory, and what it prints goes to one output.
pub mod Directory
pub mod Recorded
pub mod Next
pub mod Unchanged
use sp.Prelude.{
  ℕ, suc, ◌+◌, List, [], ◌∷◌, ◌++◌, map, Option, none, some, Bool, true, false, ◌&&◌, ◌==◌,
  if◌then◌else◌, length, ◌>>=◌,
}
use sp.Loser.Text.{Text, codes, same}
use sp.Loser.Files.{
  Entry, Kind, plain, read_only, locked, folder, open_update, list_file, qsort, find_record,
  loser_record,
}
use sp.Loser.Classify.{Line, Report, classify, nothing, digest_files, digest_first}
use sp.Loser.Record.{put_report, put_commit, status_start, commit_start, read_old, last_number}

-- What the path leads to: nothing to open, or a directory.
pub data Folder : Type 0 where
  missing : Folder
  entries : List Entry → Folder

unfoldable pub append_text : Text → Kind → Kind
append_text added (plain old) = plain (old ++ added)
append_text added (read_only content) = read_only content
append_text added locked = locked
append_text added folder = folder

-- `fprintf` to the record, which was opened to append: a new one stands last.
unfoldable pub append_record : Text → List Entry → List Entry
unfolding same append_text
append_record added [] = (record { name = loser_record; kind = plain added }) ∷ []
append_record added (e ∷ es) =
    if same e.name loser_record
    then (record e { kind = append_text added e.kind }) ∷ es
    else e ∷ append_record added es

unfoldable pub all_new : List Entry → Report
all_new es = record { new_file = map (λ e. e.name) es; modified = []; copied = [] }

-- Nothing in any of the three parts.
unfoldable pub is_nothing : Report → Bool
is_nothing r = length r.new_file == 0 && (length r.modified == 0 && length r.copied == 0)

unfoldable pub commit_report : List Entry → Text → Report → List Line → Option Folder
unfolding is_nothing last_number put_commit append_record
commit_report es record_text r files =
    if is_nothing r
    then some (entries es)
    else last_number record_text >>= λ commit_time.
        some (entries (append_record (codes "\n" ++ put_commit (commit_time + 1) r files) es))

module _ (makemd5 : Text → Text) where
  unfoldable pub status_record : List Entry → Text → Option Text
  unfolding put_report read_old status_start digest_files classify
  status_record sorted record_text =
      read_old (length sorted) record_text (status_start record_text) >>= λ old.
      digest_files makemd5 sorted >>= λ files. some (put_report (classify old files nothing))

  -- With what the record is, if it is there.
  unfoldable pub status_found : List Entry → Option Kind → Option Text
  unfolding open_update put_report all_new status_record
  status_found sorted none = some (put_report (all_new sorted))
  status_found sorted (some kind) = elim (open_update kind) [
    | none ↦ some []
    | some record_text ↦ status_record sorted record_text
  ]

  unfoldable pub status_listed : List Entry → Option Text
  unfolding qsort find_record put_report status_found
  status_listed [] = some (put_report nothing)
  status_listed (n ∷ ns) = let sorted = qsort (n ∷ ns) in status_found sorted (find_record sorted)

  -- The names are freed although `list_file` did not set them, when the directory does not open.
  unfoldable pub status : Folder → Option Text
  unfolding list_file status_listed
  status missing = none
  status (entries es) = list_file es >>= status_listed

  -- The first commit; the record is created unless the directory does not allow it.
  unfoldable pub commit_first : Bool → List Entry → List Entry → Option Folder
  unfolding digest_first put_commit all_new append_record
  commit_first can_create es sorted = digest_first makemd5 sorted >>= λ files.
      if can_create
      then some (entries (append_record (put_commit 1 (all_new sorted) files) es))
      else none

  -- The later commits; one without any change writes nothing.
  unfoldable pub commit_next : List Entry → List Entry → Text → Option Folder
  unfolding read_old commit_start digest_files classify commit_report
  commit_next es sorted record_text =
      read_old (length sorted) record_text (commit_start record_text) >>= λ old.
      digest_files makemd5 sorted >>= λ files.
      commit_report es record_text (classify old files nothing) files

  unfoldable pub commit_found : Bool → List Entry → List Entry → Option Kind → Option Folder
  unfolding open_update commit_first commit_next
  commit_found can_create es sorted none = commit_first can_create es sorted
  commit_found can_create es sorted (some kind) = elim (open_update kind) [
    | none ↦ some (entries es)
    | some record_text ↦ commit_next es sorted record_text
  ]

  unfoldable pub commit_listed : Bool → List Entry → List Entry → Option Folder
  unfolding qsort find_record commit_found
  commit_listed can_create es [] = some (entries es)
  commit_listed can_create es (n ∷ ns) =
      let sorted = qsort (n ∷ ns) in commit_found can_create es sorted (find_record sorted)

  unfoldable pub commit : Bool → Folder → Option Folder
  unfolding list_file commit_listed
  commit can_create missing = some missing
  commit can_create (entries es) = list_file es >>= commit_listed can_create es
