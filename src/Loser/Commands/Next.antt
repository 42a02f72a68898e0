-- ===== src/Loser/Commands/Next.antt =====
-- MP1/main.c: what a commit leaves when there is a record.
use mathlib.Core.Path.{subst}
use sp.Prelude.{
  ℕ, suc, ◌+◌, ◌≤◌, ◌<◌, ◌≡◌, refl, sym, ap, ◌∙◌, inl, inr, ◌⊎◌, List, [], ◌∷◌, ◌++◌, Option, some,
  true, false, length, arith, Bool-cases, ◌>>=◌, append_assoc,
}
use sp.Loser.Text.{Text, codes}
use sp.Loser.Files.{Entry, Kind, plain, qsort, lookup, loser_record}
use sp.Loser.Files.Reads.{without_dots, list_file-without_dots}
use sp.Loser.Files.Sorted.{length-qsort}
use sp.Loser.Classify.{Line, Report, nothing}
use sp.Loser.Classify.Meets.{report_of, classify-report_of}
use sp.Loser.Classify.Known.{report_of-IsMarkless}
use sp.Loser.Record.{put_report, put_commit}
use sp.Loser.Record.Clean.{IsDigest, IsMarkless}
use sp.Loser.Record.RoundTrip.{read_old-commit, last_number-commit}
use sp.Loser.Commands.{
  Folder, entries, commit_report, append_record, append_text, is_nothing, status_listed, status,
  commit_next,
}
use sp.Loser.Commands.Directory.{
  lines_of, digest_files-lines_of, lines_of-AreLines, appended, without_dots-append_record,
}
use sp.Loser.Commands.Recorded.{
  IsRecorded, IsListing, sorted-IsListing, status_listed_lem, current_status, written-IsListing,
  written-IsRecorded, written-IsCurrent,
}

module _ (makemd5 : Text → Text) (digest : (c : Text) → IsDigest (makemd5 c)) where
  -- What a commit leaves: a directory with nothing to report, whose last commit is number `new`.
  pub record Commits (es : List Entry) (old : ℕ) (f : Option Folder) : Type 0 where
    pub after : List Entry
    pub new : ℕ
    pub result : f ≡ some (entries after)
    pub reports : status makemd5 (entries after) ≡ some (put_report nothing)
    pub listing : IsListing (without_dots after)
    pub recorded : IsRecorded (without_dots after) new
    pub counts : ((after ≡ es) × (new ≡ old)) ⊎ (new ≡ suc old)

  status_lem :
      (es : List Entry) → status makemd5 (entries es) ≡ status_listed makemd5 (without_dots es)
  unfolding status
  status_lem es = rw (list_file-without_dots es, ◌>>=◌)

  -- The record is written: the old text, if any, and one more commit.
  pub written :
      (es : List Entry) (l : IsListing (without_dots es)) (t before : Text) (old number : ℕ)
      (report : Report)
      → appended t (lookup loser_record (without_dots es))
        ≡ plain (before ++ put_commit number report (lines_of makemd5 (qsort (without_dots es))))
      → IsMarkless report
      → 0 < length (lines_of makemd5 (qsort (without_dots es)))
      → number ≡ suc old
      → Commits es old (some (entries (append_record t es)))
  unfolding written-IsRecorded
  written es l t before old number report e m some_line next =
      let w = sym (without_dots-append_record t es) in
      let l' = written-IsListing t l in
      let r' = written-IsRecorded makemd5 digest l t before number report e m some_line in
      let c' = written-IsCurrent makemd5 digest (without_dots es) t l.distinct in
      record {
        after = append_record t es;
        new = number;
        result = refl;
        reports =
            status_lem (append_record t es)
            ∙ rw (without_dots-append_record t es)
                (current_status makemd5 digest (append_record t (without_dots es)) l' r' c');
        listing = subst IsListing w l';
        recorded = subst (λ ns. IsRecorded ns number) w r';
        counts = inr next;
      }

  empty_parts :
      (a b c : List Text)
      → is_nothing (record { new_file = a; modified = b; copied = c }) ≡ true
      → ◌≡◌ {A = Report} (record { new_file = a; modified = b; copied = c }) nothing
  unfolding is_nothing
  empty_parts [] [] [] h = refl
  empty_parts (x ∷ a) b c h = absurd (ground arith)
  empty_parts [] (x ∷ b) c h = absurd (ground arith)
  empty_parts [] [] (x ∷ c) h = absurd (ground arith)

  nothing_lem : (r : Report) → is_nothing r ≡ true → r ≡ nothing
  nothing_lem r h = empty_parts r.new_file r.modified r.copied h

  nonempty_lem : (old ls : List Line) → is_nothing (report_of old ls) ≡ false → 0 < length ls
  unfolding is_nothing report_of
  nonempty_lem old [] h = absurd (cc)
  nonempty_lem old (l ∷ ls) h = omega arith

  same_status :
      (ns : List Entry) {old : ℕ} (l : IsListing ns) (r : IsRecorded ns old)
      → is_nothing (report_of r.lines (lines_of makemd5 (qsort ns))) ≡ true
      → status_listed makemd5 ns ≡ some (put_report nothing)
  unfolding lookup
  same_status [] l r e = let f = r.found in absurd (cc)
  same_status (n ∷ ns) l r e =
      status_listed_lem makemd5 digest n ns l r ∙ ap (λ t. some (put_report t)) (nothing_lem _ e)

  pub next_report :
      (es : List Entry) {old : ℕ} (l : IsListing (without_dots es))
      (r : IsRecorded (without_dots es) old)
      → commit_next makemd5 es
          (qsort (without_dots es))
          (r.before ++ put_commit old r.report r.lines)
        ≡ commit_report es
            (r.before ++ put_commit old r.report r.lines)
            (report_of r.lines (lines_of makemd5 (qsort (without_dots es))))
            (lines_of makemd5 (qsort (without_dots es)))
  unfolding commit_next
  next_report es {old} l r =
      let ns = without_dots es in
      let le : length r.lines ≤ length (qsort ns) = omega (arith, length-qsort ns, r.room) in
      rw (
        read_old-commit (length (qsort ns)) r.before old r.report r.lines r.clean le r.some_line,
        ◌>>=◌,
        digest_files-lines_of makemd5 (qsort ns) (sorted-IsListing l).files,
        classify-report_of r.lines (lines_of makemd5 (qsort ns)) r.unique,
      )

  appended_lem :
      (t : Text) (o : Option Kind) (u : Text) → o ≡ some (plain u) → appended t o ≡ plain (u ++ t)
  unfolding append_text
  appended_lem t o u e = rw e

  pub commit_report-Commits :
      (es : List Entry) {old : ℕ} (l : IsListing (without_dots es))
      (r : IsRecorded (without_dots es) old)
      → Commits es old (
          commit_report es
            (r.before ++ put_commit old r.report r.lines)
            (report_of r.lines (lines_of makemd5 (qsort (without_dots es))))
            (lines_of makemd5 (qsort (without_dots es))))
  unfolding commit_report
  commit_report-Commits es {old} l r =
      let ns = without_dots es in
      let files = lines_of makemd5 (qsort ns) in
      let report = report_of r.lines files in
      elim (Bool-cases (is_nothing report)) [
        | inl e ↦ rw e (record {
          after = es;
          new = old;
          result = refl;
          reports = status_lem es ∙ same_status ns l r e;
          listing = l;
          recorded = r;
          counts = inl (refl, refl);
        })
        | inr e ↦
            rw
              (
                e,
                last_number-commit (length ns) r.before old r.report r.lines r.clean r.markless,
                ◌>>=◌,
              )
              (written es l (codes "\n" ++ put_commit (old + 1) report files)
                ((r.before ++ put_commit old r.report r.lines) ++ codes "\n") old (old + 1) report
                (appended_lem _ _ _ r.found
                  ∙ ap plain (
                      sym (
                        append_assoc (r.before ++ put_commit old r.report r.lines) (codes "\n")
                          (put_commit (old + 1) report files))))
                (report_of-IsMarkless r.lines files r.clean
                  (lines_of-AreLines makemd5 digest (qsort ns) (sorted-IsListing l).files))
                (nonempty_lem r.lines files e) (omega arith))
      ]
