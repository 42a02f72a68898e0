-- ===== src/Loser/Classify/Known.antt =====
-- MP1/main.c: files that are recorded as they are give an empty report.
use sp.Prelude.{
  ◌≡◌, refl, sym, ◌∙◌, inl, inr, List, [], ◌∷◌, ◌++◌, Option, none, some, true, false, arith,
  Bool-cases,
}
use sp.Loser.Text.{Text, same}
use sp.Loser.Text.Laws.{same_refl, same_sym, lacks, lacks-append, lacks-weaken}
use sp.Loser.Classify.{Line, Report, is_old, nothing, arrow}
use sp.Loser.Classify.Meets.{
  IsUnique, digest_of, name_with, verdict, named, sourced, tell, report_of, Verdict, unchanged,
  changed, copy_of, new,
}
use sp.Loser.Record.Clean.{AreLines, IsMarkless, is_mark, is_special, special-mark}

-- Each file is recorded with its digest.
abbrev pub AllKnown : List Line → List Line → Type 0
AllKnown old [] = Unit {0}
AllKnown old (f ∷ fs) = (digest_of f.name old ≡ some f.md5) × AllKnown old fs

known_verdict :
    (old : List Line) (f : Line) → digest_of f.name old ≡ some f.md5 → verdict old f ≡ unchanged
unfolding verdict named
known_verdict old f h = ground (arith, h, same_refl f.md5)

pub report_of-known : (old files : List Line) → AllKnown old files → report_of old files ≡ nothing
unfolding report_of tell
report_of-known old [] h = refl
report_of-known old (f ∷ fs) (k, h) = rw (known_verdict old f k) (report_of-known old fs h)

not_head :
    (n : Text) (f : Line) (fs : List Line) → is_old n (f ∷ fs) ≡ false → same f.name n ≡ false
unfolding is_old
not_head n f fs h = ground arith

not_tail : (n : Text) (f : Line) (fs : List Line) → is_old n (f ∷ fs) ≡ false → is_old n fs ≡ false
unfolding is_old
not_tail n f fs h = ground arith

known_behind :
    (o : Line) (old fs : List Line)
    → is_old o.name fs ≡ false
    → AllKnown old fs
    → AllKnown (o ∷ old) fs
unfolding digest_of is_old
known_behind o old [] out h = tt
known_behind o old (f ∷ fs) out (k, h) =
    let ne : same o.name f.name ≡ false = same_sym o.name f.name ∙ not_head o.name f fs out in
    (rw ne k, known_behind o old fs (not_tail o.name f fs out) h)

-- Every line of a record without repetition is known to it.
self_known : (ls : List Line) → IsUnique ls → AllKnown ls ls
unfolding digest_of
self_known [] u = tt
self_known (l ∷ ls) (out, u) = (rw (same_refl l.name), known_behind l ls ls out (self_known ls u))

same_known :
    (old old' fs : List Line)
    → ((n : Text) → digest_of n old ≡ digest_of n old')
    → AllKnown old' fs
    → AllKnown old fs
same_known old old' [] e h = tt
same_known old old' (f ∷ fs) e (k, h) = (e f.name ∙ k, same_known old old' fs e h)

pub report_of-same :
    (old files : List Line)
    → IsUnique files
    → ((n : Text) → digest_of n old ≡ digest_of n files)
    → report_of old files ≡ nothing
report_of-same old files u e =
    report_of-known old files (same_known old files files e (self_known files u))

name_with-mark :
    (md5 source : Text) (old : List Line)
    → AreLines old
    → name_with md5 old ≡ some source
    → lacks is_mark source ≡ true
unfolding name_with
name_with-mark md5 source [] h e = absurd (cc)
name_with-mark md5 source (o ∷ os) ((a, _, _), _, h) e = elim (Bool-cases (same o.md5 md5)) [
  | inl s ↦
      let p : o.name ≡ source = ground arith in
      rw (sym p) (lacks-weaken is_special is_mark o.name special-mark a)
  | inr s ↦ let e' = rw s at e in name_with-mark md5 source os h e'
]

copy_markless :
    (source name : Text)
    → lacks is_mark source ≡ true
    → lacks is_mark name ≡ true
    → lacks is_mark (source ++ arrow ++ name) ≡ true
unfolding lacks is_mark
copy_markless source name a b =
    lacks-append is_mark (source ++ arrow) name (lacks-append is_mark source arrow a refl) b

tell-IsMarkless :
    (name : Text) (v : Verdict) (r : Report)
    → lacks is_mark name ≡ true
    → ((source : Text) → v ≡ copy_of source → lacks is_mark source ≡ true)
    → IsMarkless r
    → IsMarkless (tell name v r)
unfolding tell
tell-IsMarkless name unchanged r n s h = h
tell-IsMarkless name changed r n s (a, b, c) = (a, (n, b), c)
tell-IsMarkless name (copy_of source) r n s (a, b, c) =
    (a, b, (copy_markless source name (s source refl) n, c))
tell-IsMarkless name new r n s (a, b, c) = ((n, a), b, c)

copy_verdict :
    (old : List Line) (f : Line) (source : Text) (o : Option Text)
    → digest_of f.name old ≡ o
    → verdict old f ≡ copy_of source
    → name_with f.md5 old ≡ some source
unfolding verdict named sourced
copy_verdict old f source (some md5) e h = ground arith
copy_verdict old f source none e h = ground arith

-- A report about names without the mark has no mark.
pub report_of-IsMarkless :
    (old files : List Line) → AreLines old → AreLines files → IsMarkless (report_of old files)
unfolding report_of
report_of-IsMarkless old [] h k = (tt, tt, tt)
report_of-IsMarkless old (f ∷ fs) h ((a, _, _), _, k) =
    tell-IsMarkless f.name (verdict old f) (report_of old fs)
      (lacks-weaken is_special is_mark f.name special-mark a)
      (λ source e. name_with-mark f.md5 source old h (copy_verdict old f source _ refl e))
      (report_of-IsMarkless old fs h k)
