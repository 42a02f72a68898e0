-- ===== src/Loser/Files/Reads.antt =====
-- MP1/main.c and MP1/list_file.c: the growing buffers hold all that is written to them.
use sp.Prelude.{
  ℕ, ◌+◌, ◌-◌, ◌*◌, ◌<◌, ◌≡◌, ◌∙◌, inl, inr, List, [], ◌∷◌, ◌++◌, some, true, ◌==◌, leb, ltb,
  if◌then◌else◌, length, length-append, arith, append-nil, append_assoc, Bool-cases,
}
use sp.Loser.Text.{Text}
use sp.Loser.Files.{Entry, read_loop, read_file, is_dot, list_loop, list_file}

read_from :
    (rest done : Text) (room : ℕ)
    → length done + 1 < room
    → read_loop rest done room ≡ some (done ++ rest)
unfolding read_loop
read_from [] done room h = rw append-nil
read_from (c ∷ rest) done room h =
    let l = length-append done (c ∷ []) in
    let ok : ltb (length done) room ≡ true = ground arith in
    elim (Bool-cases (leb (room - 1) (length done + 1))) [
      | inl e ↦
          rw (ok, e) (read_from rest (done ++ c ∷ []) (room * 2) (omega arith) ∙ rw append_assoc)
      | inr e ↦ rw (ok, e) (read_from rest (done ++ c ∷ []) room (ground arith) ∙ rw append_assoc)
    ]

-- The loop that reads a file of any length never writes behind its buffer, and reads the whole file.
pub read_file-some : (content : Text) → read_file content ≡ some content
unfolding read_file
read_file-some content = read_from content [] 2048 (omega arith)

-- The entries other than `.` and `..`, in the order of the directory.
unfoldable pub without_dots : List Entry → List Entry
without_dots [] = []
without_dots (e ∷ es) = if is_dot e.name then without_dots es else e ∷ without_dots es

list_from :
    (rest done : List Entry) (room : ℕ)
    → length done < room
    → list_loop rest done room ≡ some (done ++ without_dots rest)
unfolding list_loop without_dots
list_from [] done room h = rw append-nil
list_from (e ∷ rest) done room h = elim (Bool-cases (is_dot e.name)) [
  | inl d ↦ rw d (list_from rest done room h)
  | inr d ↦
      let l = length-append done (e ∷ []) in
      let ok : ltb (length done) room ≡ true = ground arith in
      elim (Bool-cases (length done + 1 == room)) [
        | inl f ↦
            rw (d, ok, f)
              (list_from rest (done ++ e ∷ []) (room * 2) (omega arith) ∙ rw append_assoc)
        | inr f ↦
            rw (d, ok, f) (list_from rest (done ++ e ∷ []) room (ground arith) ∙ rw append_assoc)
      ]
]

-- `list_file` never writes behind its array of names, and lists what is neither `.` nor `..`.
pub list_file-without_dots :
    (entries : List Entry) → list_file entries ≡ some (without_dots entries)
unfolding list_file
list_file-without_dots entries = list_from entries [] 128 (omega arith)
