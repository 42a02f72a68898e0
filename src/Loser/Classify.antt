-- ===== src/Loser/Classify.antt =====
-- MP1/main.c: the loops of `status` and `commit` that sort the files into new, modified and copied.
pub mod Meets
pub mod Known
use sp.Prelude.{
  List, [], ◌∷◌, ◌++◌, Option, none, some, Bool, true, false, not, ◌&&◌, if◌then◌else◌, ◌>>=◌,
}
use sp.Loser.Text.{Text, codes, same}
use sp.Loser.Files.{Entry, Kind, open_rb, open_update, read_file, loser_record}

-- A name and its digest: one line behind `(MD5)`, or one index of `names` and `dir_md5`.
pub record Line : Type 0 where
  pub name : Text
  pub md5 : Text

pub record Report : Type 0 where
  pub new_file : List Text
  pub modified : List Text
  pub copied : List Text

unfoldable pub is_old : Text → List Line → Bool
unfolding same
is_old name [] = false
is_old name (o ∷ os) = if same o.name name then true else is_old name os

-- The variables of the inner loop.
pub record Scan : Type 0 where
  pub judnew : Bool
  pub judcopy : Bool
  pub modified : List Text
  pub copied : List Text

abbrev pub arrow : Text
arrow = codes " => "

-- One round of the inner loop that does not end it.
unfoldable pub compare_step : Line → Bool → Line → Scan → Scan
unfolding same
compare_step file isold o s =
    if same o.name file.name
    then record s { judnew = false; modified = s.modified ++ o.name ∷ [] }
    else if same o.md5 file.md5 && (not s.judcopy && not isold)
    then record s {
      judnew = false;
      judcopy = true;
      copied = s.copied ++ (o.name ++ arrow ++ file.name) ∷ [];
    }
    else s

-- The inner loop; it ends early at the same name with the same digest.
unfoldable pub compare_loop : Line → Bool → List Line → Scan → Scan
unfolding compare_step same
compare_loop file isold [] s = s
compare_loop file isold (o ∷ os) s =
    let later = compare_loop file isold os (compare_step file isold o s) in
    if same o.name file.name && same o.md5 file.md5 then record s { judnew = false } else later

unfoldable pub compare_file : List Line → Line → Report → Report
unfolding compare_loop is_old
compare_file old file r =
    let s =
      compare_loop file (is_old file.name old) old
        (record { judnew = true; judcopy = false; modified = r.modified; copied = r.copied }) in
    record {
      new_file = if s.judnew then r.new_file ++ file.name ∷ [] else r.new_file;
      modified = s.modified;
      copied = s.copied;
    }

unfoldable pub classify : List Line → List Line → Report → Report
unfolding compare_file
classify old [] r = r
classify old (file ∷ files) r = classify old files (compare_file old file r)

abbrev pub nothing : Report
nothing = record { new_file = []; modified = []; copied = [] }

module _ (makemd5 : Text → Text) where
  -- The names and digests that the outer loop goes over: all but the record. A file that does not
  -- open has no digest, and the loop then reads an array that nothing was written to: `none`.
  unfoldable pub digest_files : List Entry → Option (List Line)
  unfolding open_rb read_file same
  digest_files [] = some []
  digest_files (e ∷ es) =
      let rest = digest_files es in
      if same e.name loser_record
      then rest
      else open_rb e.kind >>= λ file_content. read_file file_content >>= λ content.
          rest >>= λ lines. some ((record { name = e.name; md5 = makemd5 content }) ∷ lines)

  -- The lines that the first commit writes: what does not open for update is left out.
  unfoldable pub digest_first : List Entry → Option (List Line)
  unfolding open_update read_file same
  digest_first [] = some []
  digest_first (e ∷ es) =
      let rest = digest_first es in
      if same e.name loser_record then rest else elim (open_update e.kind) [
        | none ↦ rest
        | some file_content ↦ read_file file_content >>= λ content.
            rest >>= λ lines. some ((record { name = e.name; md5 = makemd5 content }) ∷ lines)
      ]
