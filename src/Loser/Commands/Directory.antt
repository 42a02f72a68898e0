-- ===== src/Loser/Commands/Directory.antt =====
-- MP1/main.c: the digests of a directory of plain files, and the directory after a write to the record.
use mathlib.Core.Path.{subst}
use sp.Prelude.{
  ◌≤◌, ◌≡◌, refl, sym, ap, ◌∙◌, inl, inr, List, [], ◌∷◌, Option, none, some, true, false,
  if◌then◌else◌, length, arith, Bool-cases, ◌>>=◌,
}
use sp.Loser.Text.{Text, same, is_space}
use sp.Loser.Text.Laws.{same→≡, same_sym, lacks}
use sp.Loser.Files.{
  Entry, Kind, plain, read_only, locked, folder, open_rb, open_update, is_dot, dot, dot_dot, lookup,
  loser_record,
}
use sp.Loser.Files.Reads.{read_file-some, without_dots}
use sp.Loser.Files.Sorted.{AreDistinct, All}
use sp.Loser.Classify.{Line, is_old, digest_files, digest_first}
use sp.Loser.Classify.Meets.{IsUnique, digest_of}
use sp.Loser.Record.Clean.{IsName, IsDigest, AreLines, is_special}
use sp.Loser.Commands.{append_text, append_record}

abbrev pub content_of : Kind → Text
content_of (plain content) = content
content_of (read_only content) = content
content_of locked = []
content_of folder = []

-- A file that can be read and written, under a name that the record can hold.
abbrev pub IsFile : Entry → Type 0
IsFile e = IsName e.name × (e.kind ≡ plain (content_of e.kind))

module _ (makemd5 : Text → Text) where
  unfoldable pub lines_of : List Entry → List Line
  lines_of [] = []
  lines_of (e ∷ es) =
      if same e.name loser_record
      then lines_of es
      else (record { name = e.name; md5 = makemd5 (content_of e.kind) }) ∷ lines_of es

  pub digest_files-lines_of :
      (es : List Entry) → All IsFile es → digest_files makemd5 es ≡ some (lines_of es)
  unfolding digest_files lines_of open_rb
  digest_files-lines_of [] h = refl
  digest_files-lines_of (e ∷ es) ((_, p), h) = elim (Bool-cases (same e.name loser_record)) [
    | inl r ↦ rw r (digest_files-lines_of es h)
    | inr r ↦
        let o : open_rb e.kind ≡ some (content_of e.kind) = ap open_rb p in
        rw (r, o, ◌>>=◌, read_file-some (content_of e.kind), digest_files-lines_of es h)
  ]

  pub digest_first-lines_of :
      (es : List Entry) → All IsFile es → digest_first makemd5 es ≡ some (lines_of es)
  unfolding digest_first lines_of open_update
  digest_first-lines_of [] h = refl
  digest_first-lines_of (e ∷ es) ((_, p), h) = elim (Bool-cases (same e.name loser_record)) [
    | inl r ↦ rw r (digest_first-lines_of es h)
    | inr r ↦
        let o : open_update e.kind ≡ some (content_of e.kind) = ap open_update p in
        rw (r, o, ◌>>=◌, read_file-some (content_of e.kind), digest_first-lines_of es h)
  ]

  pub lines_of-AreLines :
      ((c : Text) → IsDigest (makemd5 c))
      → (es : List Entry) → All IsFile es
      → AreLines (lines_of es)
  unfolding lines_of
  lines_of-AreLines m [] h = tt
  lines_of-AreLines m (e ∷ es) ((n, p), h) = elim (Bool-cases (same e.name loser_record)) [
    | inl r ↦ rw r (lines_of-AreLines m es h)
    | inr r ↦ rw r (n, m (content_of e.kind), lines_of-AreLines m es h)
  ]

  pub length-lines_of : (es : List Entry) → length (lines_of es) ≤ length es
  unfolding lines_of
  length-lines_of [] = omega arith
  length-lines_of (e ∷ es) = ground (arith, length-lines_of es)

  absent : (n : Text) (es : List Entry) → lookup n es ≡ none → is_old n (lines_of es) ≡ false
  unfolding lookup lines_of is_old
  absent n [] h = refl
  absent n (e ∷ es) h = ground (arith, absent n es)

  pub lines_of-IsUnique : (es : List Entry) → AreDistinct es → IsUnique (lines_of es)
  unfolding lines_of
  lines_of-IsUnique [] d = tt
  lines_of-IsUnique (e ∷ es) (out, d) = elim (Bool-cases (same e.name loser_record)) [
    | inl r ↦ rw r (lines_of-IsUnique es d)
    | inr r ↦ rw r (absent e.name es out, lines_of-IsUnique es d)
  ]

  digest_at : Option Kind → Option Text
  digest_at none = none
  digest_at (some kind) = some (makemd5 (content_of kind))

  digest_of-record : (es : List Entry) → digest_of loser_record (lines_of es) ≡ none
  unfolding digest_of lines_of
  digest_of-record [] = refl
  digest_of-record (e ∷ es) = elim (Bool-cases (same e.name loser_record)) [
    | inl r ↦ rw r (digest_of-record es)
    | inr r ↦ rw (r, r) (digest_of-record es)
  ]

  -- The recorded digest of a name is that of the file which stands under it.
  digest_of-lookup :
      (n : Text) (es : List Entry)
      → same n loser_record ≡ false
      → digest_of n (lines_of es) ≡ digest_at (lookup n es)
  unfolding digest_of lines_of lookup digest_at
  digest_of-lookup n [] f = refl
  digest_of-lookup n (e ∷ es) f = elim (Bool-cases (same e.name n)) [
    | inl s ↦
        let p = same→≡ e.name n s in
        let r : same e.name loser_record ≡ false =
          subst (λ m. same m loser_record ≡ false) (sym p) f in
        rw (r, s)
    | inr s ↦ elim (Bool-cases (same e.name loser_record)) [
      | inl r ↦ rw (r, s) (digest_of-lookup n es f)
      | inr r ↦ rw (r, s) (digest_of-lookup n es f)
    ]
  ]

  pub digest_of-same :
      (n : Text) (es fs : List Entry)
      → (same n loser_record ≡ false → lookup n es ≡ lookup n fs)
      → digest_of n (lines_of es) ≡ digest_of n (lines_of fs)
  digest_of-same n es fs h = elim (Bool-cases (same n loser_record)) [
    | inl r ↦ let q = same→≡ n loser_record r in rw (q, digest_of-record es, digest_of-record fs)
    | inr r ↦ rw (digest_of-lookup n es r, digest_of-lookup n fs r, h r)
  ]

-- The write changes the record, and nothing else.
pub lookup-append_record :
    (t n : Text) (es : List Entry)
    → same n loser_record ≡ false
    → lookup n (append_record t es) ≡ lookup n es
unfolding lookup append_record
lookup-append_record t n [] f = rw (same_sym loser_record n, f)
lookup-append_record t n (e ∷ es) f = elim (Bool-cases (same e.name loser_record)) [
  | inl r ↦
      let p = same→≡ e.name loser_record r in
      let q : same e.name n ≡ false = rw p (same_sym loser_record n ∙ f) in rw (r, q)
  | inr r ↦ ground (arith, r, lookup-append_record t n es f)
]

abbrev pub appended : Text → Option Kind → Kind
appended t none = plain t
appended t (some kind) = append_text t kind

pub record-append_record :
    (t : Text) (es : List Entry)
    → lookup loser_record (append_record t es) ≡ some (appended t (lookup loser_record es))
unfolding lookup append_record
record-append_record t [] = refl
record-append_record t (e ∷ es) = elim (Bool-cases (same e.name loser_record)) [
  | inl r ↦ rw (r, r)
  | inr r ↦ rw (r, r) (record-append_record t es)
]

pub append_record-AreDistinct :
    (t : Text) (es : List Entry) → AreDistinct es → AreDistinct (append_record t es)
unfolding append_record lookup
append_record-AreDistinct t [] d = (refl, tt)
append_record-AreDistinct t (e ∷ es) (out, d) = elim (Bool-cases (same e.name loser_record)) [
  | inl r ↦ rw r (out, d)
  | inr r ↦ rw r (lookup-append_record t e.name es r ∙ out, append_record-AreDistinct t es d)
]

record-IsName : IsName loser_record
unfolding lacks is_special is_space
record-IsName = (refl, omega arith, omega arith)

append_plain :
    (t : Text) (k : Kind)
    → k ≡ plain (content_of k)
    → append_text t k ≡ plain (content_of (append_text t k))
unfolding append_text
append_plain t (plain c) p = refl
append_plain t (read_only c) p = p
append_plain t locked p = p
append_plain t folder p = p

pub append_record-All :
    (t : Text) (es : List Entry) → All IsFile es → All IsFile (append_record t es)
unfolding append_record append_text
append_record-All t [] h = ((record-IsName, refl), tt)
append_record-All t (e ∷ es) ((n, p), h) = elim (Bool-cases (same e.name loser_record)) [
  | inl r ↦ rw r ((n, append_plain t e.kind p), h)
  | inr r ↦ rw r ((n, p), append_record-All t es h)
]

pub length-append_record : (t : Text) (es : List Entry) → length es ≤ length (append_record t es)
unfolding append_record
length-append_record t [] = omega arith
length-append_record t (e ∷ es) = ground (arith, length-append_record t es)

dots : (n : Text) → is_dot n ≡ true → same n loser_record ≡ false
unfolding is_dot same
dots n h = elim (Bool-cases (same n dot)) [
  | inl a ↦ let p = same→≡ n dot a in rw p
  | inr a ↦ let h' = rw a at h in let p = same→≡ n dot_dot h' in rw p
]

-- `.` and `..` do not matter to the write.
pub without_dots-append_record :
    (t : Text) (es : List Entry)
    → without_dots (append_record t es) ≡ append_record t (without_dots es)
unfolding without_dots append_record is_dot
without_dots-append_record t [] = refl
without_dots-append_record t (e ∷ es) = elim (Bool-cases (is_dot e.name)) [
  | inl d ↦ let f = dots e.name d in rw (f, d) (without_dots-append_record t es)
  | inr d ↦ elim (Bool-cases (same e.name loser_record)) [
    | inl r ↦ ground (arith, r, d)
    | inr r ↦ ground (arith, r, d, without_dots-append_record t es)
  ]
]
