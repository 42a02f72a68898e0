-- ===== src/Loser/Commands/Recorded.antt =====
-- MP1/main.c: what `status` says of a directory with a current record.
use sp.Prelude.{ℕ, ◌≤◌, ◌<◌, ◌≡◌, sym, ap, ◌∙◌, List, [], ◌∷◌, ◌++◌, some, length, arith, ◌>>=◌}
use sp.Loser.Text.{Text}
use sp.Loser.Files.{Entry, plain, open_update, qsort, find_record, lookup, loser_record}
use sp.Loser.Files.Sorted.{
  AreDistinct, All, lookup-qsort, qsort-AreDistinct, qsort-All, length-qsort,
}
use sp.Loser.Classify.{Line, Report, nothing}
use sp.Loser.Classify.Meets.{IsUnique, digest_of, report_of, classify-report_of}
use sp.Loser.Classify.Known.{report_of-same}
use sp.Loser.Record.{put_report, put_commit}
use sp.Loser.Record.Clean.{IsDigest, AreLines, IsMarkless}
use sp.Loser.Record.RoundTrip.{read_old-status}
use sp.Loser.Commands.{append_record, status_record, status_found, status_listed}
use sp.Loser.Commands.Directory.{
  IsFile, lines_of, digest_files-lines_of, lines_of-AreLines, length-lines_of, lines_of-IsUnique,
  digest_of-same, lookup-append_record, appended, record-append_record, append_record-AreDistinct,
  append_record-All, length-append_record,
}

-- The record ends with a commit that can be read back, and does not list more than there is.
pub record IsRecorded (ns : List Entry) (number : ℕ) : Type 0 where
  pub before : Text
  pub report : Report
  pub lines : List Line
  pub found : lookup loser_record ns ≡ some (plain (before ++ put_commit number report lines))
  pub clean : AreLines lines
  pub markless : IsMarkless report
  pub unique : IsUnique lines
  pub some_line : 0 < length lines
  pub room : length lines ≤ length ns

pub record IsListing (ns : List Entry) : Type 0 where
  pub files : All IsFile ns
  pub distinct : AreDistinct ns

pub sorted-IsListing : {ns : List Entry} → IsListing ns → IsListing (qsort ns)
sorted-IsListing {ns} l = record {
  files = qsort-All IsFile ns l.files;
  distinct = qsort-AreDistinct ns l.distinct;
}

-- The listing after a write to the record.
pub written-IsListing : {ns : List Entry} (t : Text) → IsListing ns → IsListing (append_record t ns)
written-IsListing {ns} t l = record {
  files = append_record-All t ns l.files;
  distinct = append_record-AreDistinct t ns l.distinct;
}

module _ (makemd5 : Text → Text) where
  -- The digests that the record ends with are those of the files.
  abbrev pub IsCurrent : List Entry → List Line → Type 0
  IsCurrent ns ls = (n : Text) → digest_of n ls ≡ digest_of n (lines_of makemd5 ns)

  module _ (digest : (c : Text) → IsDigest (makemd5 c)) where
    sorted_digest :
        (ns : List Entry) (n : Text)
        → AreDistinct ns
        → digest_of n (lines_of makemd5 (qsort ns)) ≡ digest_of n (lines_of makemd5 ns)
    sorted_digest ns n d = digest_of-same makemd5 n (qsort ns) ns (λ f. lookup-qsort n ns d)

    status_record_lem :
        {ns : List Entry} {number : ℕ} (l : IsListing ns) (r : IsRecorded ns number)
        → status_record makemd5 (qsort ns) (r.before ++ put_commit number r.report r.lines)
          ≡ some (put_report (report_of r.lines (lines_of makemd5 (qsort ns))))
    unfolding status_record
    status_record_lem {ns} {number} l r =
        let le : length r.lines ≤ length (qsort ns) = omega (arith, length-qsort ns, r.room) in
        rw (
          read_old-status (length (qsort ns)) r.before number r.report r.lines r.clean le,
          ◌>>=◌,
          digest_files-lines_of makemd5 (qsort ns) (sorted-IsListing l).files,
          classify-report_of r.lines (lines_of makemd5 (qsort ns)) r.unique,
        )

    pub status_listed_lem :
        (n : Entry) (ns : List Entry) {number : ℕ}
        → IsListing (n ∷ ns)
        → (r : IsRecorded (n ∷ ns) number)
        → status_listed makemd5 (n ∷ ns)
          ≡ some (put_report (report_of r.lines (lines_of makemd5 (qsort (n ∷ ns)))))
    unfolding status_listed status_found find_record open_update
    status_listed_lem n ns l r =
        rw (status_listed, lookup-qsort loser_record (n ∷ ns) l.distinct, r.found)
          (status_record_lem l r)

    -- A listing whose record is current has nothing to report.
    pub current_status :
        (ns : List Entry) {number : ℕ}
        → IsListing ns
        → (r : IsRecorded ns number) → IsCurrent ns r.lines
        → status_listed makemd5 ns ≡ some (put_report nothing)
    unfolding lookup
    current_status [] l r c = let f = r.found in absurd (cc)
    current_status (n ∷ ns) l r c =
        let sorted = sorted-IsListing l in
        status_listed_lem n ns l r
        ∙ ap (λ t. some (put_report t))
            (report_of-same r.lines (lines_of makemd5 (qsort (n ∷ ns)))
              (lines_of-IsUnique makemd5 (qsort (n ∷ ns)) sorted.distinct)
              (λ m. c m ∙ sym (sorted_digest (n ∷ ns) m l.distinct)))

    unfoldable pub written-IsRecorded :
        {ns : List Entry} (l : IsListing ns) (t before : Text) (number : ℕ) (report : Report)
        → appended t (lookup loser_record ns)
          ≡ plain (before ++ put_commit number report (lines_of makemd5 (qsort ns)))
        → IsMarkless report
        → 0 < length (lines_of makemd5 (qsort ns))
        → IsRecorded (append_record t ns) number
    written-IsRecorded {ns} l t before number report e m some_line = record {
      before = before;
      report = report;
      lines = lines_of makemd5 (qsort ns);
      found = record-append_record t ns ∙ ap some e;
      clean = lines_of-AreLines makemd5 digest (qsort ns) (sorted-IsListing l).files;
      markless = m;
      unique = lines_of-IsUnique makemd5 (qsort ns) (sorted-IsListing l).distinct;
      some_line = some_line;
      room =
          omega
            (arith, length-lines_of makemd5 (qsort ns), length-qsort ns, length-append_record t ns);
    }

    pub written-IsCurrent :
        (ns : List Entry) (t : Text)
        → AreDistinct ns
        → IsCurrent (append_record t ns) (lines_of makemd5 (qsort ns))
    written-IsCurrent ns t d n =
        digest_of-same makemd5 n (qsort ns) (append_record t ns)
          (λ f. lookup-qsort n ns d ∙ sym (lookup-append_record t n ns f))
