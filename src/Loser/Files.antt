-- ===== src/Loser/Files.antt =====
-- MP1/main.c and MP1/list_file.c: the directory and the loops that read it and its files.
-- The names in the array are taken to have room for their final zero byte.
pub mod Reads
pub mod Sorted
use Prim.Native.Nat.{Ordering}
use sp.Prelude.{
  ℕ, zero, suc, ◌+◌, ◌-◌, ◌*◌, List, [], ◌∷◌, ◌++◌, Option, none, some, Bool, true, false, ◌||◌,
  ◌==◌, leb, ltb, if◌then◌else◌, length, ◌>>=◌,
}
use sp.Loser.Text.{Text, codes, strcmp, same}

-- What the program can open: a file, one without leave to write, one without leave to read, or
-- a directory, which opens for reading and has nothing to read.
pub data Kind : Type 0 where
  plain : Text → Kind
  read_only : Text → Kind
  locked : Kind
  folder : Kind

pub record Entry : Type 0 where
  pub name : Text
  pub kind : Kind

-- `fopen(filepath, "rb")`
unfoldable pub open_rb : Kind → Option Text
open_rb (plain content) = some content
open_rb (read_only content) = some content
open_rb locked = none
open_rb folder = some []

-- `fopen(filepath, "r+")`
unfoldable pub open_update : Kind → Option Text
open_update (plain content) = some content
open_update (read_only content) = none
open_update locked = none
open_update folder = none

-- Reads byte by byte into a buffer of `bufferlen` bytes that doubles; `none` is a write behind it.
unfoldable pub read_loop : Text → Text → ℕ → Option Text
read_loop [] file_content bufferlen = some file_content
read_loop (tmpc ∷ rest) file_content bufferlen =
    let nowlen = length file_content + 1 in
    let more =
      read_loop rest (file_content ++ tmpc ∷ [])
        (if leb (bufferlen - 1) nowlen then bufferlen * 2 else bufferlen) in
    if ltb (length file_content) bufferlen then more else none

unfoldable pub read_file : Text → Option Text
unfolding read_loop
read_file content = read_loop content [] 2048

abbrev pub dot : Text
dot = codes "."

abbrev pub dot_dot : Text
dot_dot = codes ".."

-- `.` and `..` are left out.
unfoldable pub is_dot : Text → Bool
unfolding same
is_dot name = same name dot || same name dot_dot

-- Lists into an array of `real_length` names that doubles; `none` is a write behind it.
unfoldable pub list_loop : List Entry → List Entry → ℕ → Option (List Entry)
unfolding is_dot
list_loop [] names real_length = some names
list_loop (dp ∷ rest) names real_length =
    let skip = list_loop rest names real_length in
    let more =
      list_loop rest (names ++ dp ∷ [])
        (if length names + 1 == real_length then real_length * 2 else real_length) in
    if is_dot dp.name then skip else if ltb (length names) real_length then more else none

unfoldable pub list_file : List Entry → Option (List Entry)
unfolding list_loop
list_file entries = list_loop entries [] 128

-- `qsort` with `compare`: by name, as `strcmp` orders.
unfoldable pub insert_entry : Entry → List Entry → List Entry
unfolding strcmp
insert_entry e [] = e ∷ []
insert_entry e (x ∷ xs) =
    let later = insert_entry e xs in
    elim (strcmp e.name x.name) [ Ordering.gt ↦ x ∷ later | _ ↦ e ∷ x ∷ xs ]

unfoldable pub qsort : List Entry → List Entry
unfolding insert_entry
qsort [] = []
qsort (e ∷ es) = insert_entry e (qsort es)

abbrev pub loser_record : Text
loser_record = codes ".loser_record"

-- `fopen` goes by the name.
unfoldable pub lookup : Text → List Entry → Option Kind
unfolding same
lookup name [] = none
lookup name (e ∷ es) = if same e.name name then some e.kind else lookup name es

-- The loop that looks for the record, and what it is when it is there.
unfoldable pub find_record : List Entry → Option Kind
unfolding lookup
find_record names = lookup loser_record names
