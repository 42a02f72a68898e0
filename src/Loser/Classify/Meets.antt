-- ===== src/Loser/Classify/Meets.antt =====
-- MP1/main.c: the classification of the files against its description name by name.
use mathlib.Core.Path.{subst}
use sp.Prelude.{
  ◌≡◌, refl, ap, ◌∙◌, inl, inr, List, [], ◌∷◌, ◌++◌, Option, none, some, true, false, if◌then◌else◌,
  arith, append-nil, append_assoc, Bool-cases,
}
use sp.Loser.Text.{Text, same}
use sp.Loser.Text.Laws.{same→≡}
use sp.Loser.Classify.{
  Line, Report, is_old, Scan, arrow, compare_step, compare_loop, compare_file, classify, nothing,
}

-- No two lines have the same name.
abbrev pub IsUnique : List Line → Type 0
IsUnique [] = Unit {0}
IsUnique (o ∷ os) = (is_old o.name os ≡ false) × IsUnique os

pub data Verdict : Type 0 where
  unchanged : Verdict
  changed : Verdict
  copy_of : Text → Verdict
  new : Verdict

unfoldable pub digest_of : Text → List Line → Option Text
digest_of name [] = none
digest_of name (o ∷ os) = if same o.name name then some o.md5 else digest_of name os

unfoldable pub name_with : Text → List Line → Option Text
name_with md5 [] = none
name_with md5 (o ∷ os) = if same o.md5 md5 then some o.name else name_with md5 os

unfoldable pub named : Line → Text → Verdict
named file md5 = if same md5 file.md5 then unchanged else changed

unfoldable pub sourced : Option Text → Verdict
sourced none = new
sourced (some source) = copy_of source

-- What the file is: by the recorded digest of its name, or else by the first line with its digest.
unfoldable pub verdict : List Line → Line → Verdict
verdict old file = elim (digest_of file.name old) [
  | some md5 ↦ named file md5
  | none ↦ sourced (name_with file.md5 old)
]

unfoldable pub tell : Text → Verdict → Report → Report
tell name unchanged r = r
tell name changed r = record r { modified = name ∷ r.modified }
tell name (copy_of source) r = record r { copied = (source ++ arrow ++ name) ∷ r.copied }
tell name new r = record r { new_file = name ∷ r.new_file }

-- The report, each of whose parts lists the files in the given order.
unfoldable pub report_of : List Line → List Line → Report
report_of old [] = nothing
report_of old (file ∷ files) = tell file.name (verdict old file) (report_of old files)

unfoldable judge : Text → Verdict → Scan → Scan
judge name unchanged s = record s { judnew = false }
judge name changed s = record s { judnew = false; modified = s.modified ++ name ∷ [] }
judge name (copy_of source) s = record s {
  judnew = false;
  judcopy = true;
  copied = s.copied ++ (source ++ arrow ++ name) ∷ [];
}
judge name new s = s

digest_of-none : (name : Text) (os : List Line) → is_old name os ≡ false → digest_of name os ≡ none
unfolding is_old digest_of
digest_of-none name [] h = refl
digest_of-none name (o ∷ os) h = ground (arith, digest_of-none name os)

-- Behind a line of the file's name nothing else happens to an old file.
loop_old :
    (file : Line) (os : List Line) (s : Scan)
    → is_old file.name os ≡ false
    → compare_loop file true os s ≡ s
unfolding is_old compare_loop compare_step
loop_old file [] s h = refl
loop_old file (o ∷ os) s h = ground (arith, loop_old file os s)

digest_of-some :
    (name : Text) (os : List Line)
    → is_old name os ≡ true
    → (md5 : Text) × (digest_of name os ≡ some md5)
unfolding is_old digest_of
digest_of-some name [] h = absurd (cc)
digest_of-some name (o ∷ os) h = elim (Bool-cases (same o.name name)) [
  | inl e ↦ (o.md5, rw e)
  | inr e ↦ let h' = rw e at h in let (m, d) = digest_of-some name os h' in (m, rw e d)
]

loop_head :
    (file o : Line) (os : List Line) (s : Scan)
    → is_old file.name os ≡ false
    → o.name ≡ file.name
    → same o.name file.name ≡ true
    → compare_loop file true (o ∷ os) s ≡ judge file.name (named file o.md5) s
unfolding compare_loop compare_step named judge
loop_head file o os s out p e = elim (Bool-cases (same o.md5 file.md5)) [
  | inl d ↦ simp (e, d)
  | inr d ↦
      simp (e, d)
        (loop_old file os (record s { judnew = false; modified = s.modified ++ o.name ∷ [] }) out
          ∙ ap (λ n. record s { judnew = false; modified = s.modified ++ n ∷ [] }) p)
]

loop_named :
    (file : Line) (os : List Line) (s : Scan) (md5 : Text)
    → IsUnique os
    → digest_of file.name os ≡ some md5
    → compare_loop file true os s ≡ judge file.name (named file md5) s
unfolding compare_loop compare_step digest_of
loop_named file [] s m u h = absurd (cc)
loop_named file (o ∷ os) s m (out, u) h = elim (Bool-cases (same o.name file.name)) [
  | inl e ↦
      let p = same→≡ o.name file.name e in
      let out' : is_old file.name os ≡ false = subst (λ n. is_old n os ≡ false) p out in
      let q : o.md5 ≡ m = ground arith in
      loop_head file o os s out' p e ∙ ap (λ t. judge file.name (named file t) s) q
  | inr e ↦ let h' = rw e at h in ground (arith, e, loop_named file os s m u h')
]

loop_copied :
    (file : Line) (os : List Line) (s : Scan)
    → is_old file.name os ≡ false
    → s.judcopy ≡ true
    → compare_loop file false os s ≡ s
unfolding is_old compare_loop compare_step
loop_copied file [] s h c = refl
loop_copied file (o ∷ os) s h c = ground (arith, loop_copied file os s)

loop_unnamed :
    (file : Line) (os : List Line) (s : Scan)
    → is_old file.name os ≡ false
    → s.judcopy ≡ false
    → compare_loop file false os s ≡ judge file.name (sourced (name_with file.md5 os)) s
unfolding is_old compare_loop compare_step name_with judge sourced
loop_unnamed file [] s h c = refl
loop_unnamed file (o ∷ os) s h c = elim (Bool-cases (same o.name file.name)) [
  | inl e ↦ let h' = rw e at h in absurd (cc)
  | inr e ↦
      let h' : is_old file.name os ≡ false = rw e at h in
      elim (Bool-cases (same o.md5 file.md5)) [
        | inl d ↦
            simp (e, d, c)
              (loop_copied file os
                (record s {
                  judnew = false;
                  judcopy = true;
                  copied = s.copied ++ (o.name ++ arrow ++ file.name) ∷ [];
                })
                h' refl)
        | inr d ↦ simp (e, d) (loop_unnamed file os s h' c)
      ]
]

unfoldable join : Report → Report → Report
join r t = record {
  new_file = r.new_file ++ t.new_file;
  modified = r.modified ++ t.modified;
  copied = r.copied ++ t.copied;
}

abbrev start : Report → Scan
start r = record { judnew = true; judcopy = false; modified = r.modified; copied = r.copied }

verdict-some :
    (old : List Line) (file : Line) (md5 : Text)
    → digest_of file.name old ≡ some md5
    → verdict old file ≡ named file md5
unfolding verdict
verdict-some old file md5 e = ground (arith, e)

verdict-none :
    (old : List Line) (file : Line)
    → digest_of file.name old ≡ none
    → verdict old file ≡ sourced (name_with file.md5 old)
unfolding verdict
verdict-none old file e = ground (arith, e)

judged :
    (old : List Line) (file : Line) (r : Report)
    → IsUnique old
    → compare_loop file (is_old file.name old) old (start r)
      ≡ judge file.name (verdict old file) (start r)
judged old file r u = elim (Bool-cases (is_old file.name old)) [
  | inl e ↦
      let (m, d) = digest_of-some file.name old e in
      rw (e, verdict-some old file m d) (loop_named file old (start r) m u d)
  | inr e ↦
      rw (e, verdict-none old file (digest_of-none file.name old e))
        (loop_unnamed file old (start r) e refl)
]

joined :
    (name : Text) (v : Verdict) (r t : Report)
    → join
        (record {
          new_file =
              if (judge name v (start r)).judnew then r.new_file ++ name ∷ [] else r.new_file;
          modified = (judge name v (start r)).modified;
          copied = (judge name v (start r)).copied;
        })
        t
      ≡ join r (tell name v t)
unfolding judge tell join
joined name unchanged r t = refl
joined name changed r t = simp append_assoc
joined name (copy_of source) r t = simp append_assoc
joined name new r t = simp append_assoc

compare_file_lem :
    (old : List Line) (file : Line) (r t : Report)
    → IsUnique old
    → join (compare_file old file r) t ≡ join r (tell file.name (verdict old file) t)
unfolding compare_file
compare_file_lem old file r t u = rw (judged old file r u) (joined file.name (verdict old file) r t)

classify_from :
    (old files : List Line) (r : Report)
    → IsUnique old
    → classify old files r ≡ join r (report_of old files)
unfolding classify report_of join
classify_from old [] r u = simp append-nil
classify_from old (file ∷ files) r u =
    classify_from old files (compare_file old file r) u
    ∙ compare_file_lem old file r (report_of old files) u

-- When no name is recorded twice, the loops of `status` and `commit` report each file, in order:
-- as modified, when its name is recorded with another digest; as a copy of the first recorded
-- file with its digest, when its name is not recorded; as new, when its digest is not either.
pub classify-report_of :
    (old files : List Line) → IsUnique old → classify old files nothing ≡ report_of old files
unfolding join
classify-report_of old files u = classify_from old files nothing u
