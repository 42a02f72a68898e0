-- ===== src/Loser/Commands/Unchanged.antt =====
-- MP1/main.c: after a commit there is nothing to report.
use sp.Prelude.{
  ℕ, ◌<◌, ◌≡◌, refl, ap, ◌∙◌, inl, inr, ◌⊎◌, List, [], ◌∷◌, none, some, true, length, arith, ◌>>=◌,
}
use sp.Loser.Text.{Text}
use sp.Loser.Text.Laws.{lacks-weaken}
use sp.Loser.Files.{Entry, plain, open_update, qsort, find_record, lookup, loser_record}
use sp.Loser.Files.Reads.{without_dots, list_file-without_dots}
use sp.Loser.Files.Sorted.{AreDistinct, All, lookup-qsort, length-qsort}
use sp.Loser.Record.{put_commit}
use sp.Loser.Record.Clean.{IsDigest, AreMarkless, is_mark, is_special, special-mark}
use sp.Loser.Commands.{
  entries, all_new, commit_first, commit_next, commit_found, commit_listed, commit,
}
use sp.Loser.Commands.Directory.{IsFile, lines_of, digest_first-lines_of}
use sp.Loser.Commands.Recorded.{IsRecorded, IsListing, sorted-IsListing}
use sp.Loser.Commands.Next.{written, next_report, commit_report-Commits, Commits}

module _ (makemd5 : Text → Text) (digest : (c : Text) → IsDigest (makemd5 c)) where
  all_new-AreMarkless : (ns : List Entry) → All IsFile ns → AreMarkless (all_new ns).new_file
  unfolding all_new
  all_new-AreMarkless [] h = tt
  all_new-AreMarkless (e ∷ es) (((a, _, _), _), h) =
      (lacks-weaken is_special is_mark e.name special-mark a, all_new-AreMarkless es h)

  first_line :
      (ns : List Entry)
      → 0 < length ns
      → lookup loser_record ns ≡ none
      → 0 < length (lines_of makemd5 ns)
  unfolding lookup lines_of
  first_line [] lt h = absurd (omega arith)
  first_line (n ∷ ns) lt h = ground arith

  first-Commits :
      (es : List Entry)
      → IsListing (without_dots es)
      → lookup loser_record (without_dots es) ≡ none
      → 0 < length (without_dots es)
      → Commits makemd5 digest es 0 (commit_first makemd5 true es (qsort (without_dots es)))
  unfolding commit_first
  first-Commits es l none_yet some_entry =
      let ns = without_dots es in
      let t = put_commit 1 (all_new (qsort ns)) (lines_of makemd5 (qsort ns)) in
      rw (digest_first-lines_of makemd5 (qsort ns) (sorted-IsListing l).files, ◌>>=◌)
        (written makemd5 digest es l t [] 0 1 (all_new (qsort ns)) (rw none_yet)
          (all_new-AreMarkless (qsort ns) (sorted-IsListing l).files, tt, tt)
          (first_line (qsort ns) (omega (arith, length-qsort ns))
            (lookup-qsort loser_record ns l.distinct ∙ none_yet))
          (omega arith))

  listed_lem :
      (es ns : List Entry)
      → AreDistinct ns
      → 0 < length ns
      → commit_listed makemd5 true es ns
        ≡ commit_found makemd5 true es (qsort ns) (lookup loser_record ns)
  unfolding commit_listed find_record
  listed_lem es [] d lt = absurd (omega arith)
  listed_lem es (n ∷ ns) d lt =
      ap (commit_found makemd5 true es (qsort (n ∷ ns))) (lookup-qsort loser_record (n ∷ ns) d)

  commit_lem :
      (es : List Entry)
      → IsListing (without_dots es)
      → 0 < length (without_dots es)
      → commit makemd5 true (entries es)
        ≡ commit_found makemd5 true es
            (qsort (without_dots es))
            (lookup loser_record (without_dots es))
  unfolding commit
  commit_lem es l lt =
      rw (list_file-without_dots es, ◌>>=◌) (listed_lem es (without_dots es) l.distinct lt)

  opened_lem :
      (es ns : List Entry) (t : Text)
      → commit_found makemd5 true es ns (some (plain t)) ≡ commit_next makemd5 es ns t
  unfolding commit_found open_update
  opened_lem es ns t = refl

  first_lem :
      (es ns : List Entry) → commit_found makemd5 true es ns none ≡ commit_first makemd5 true es ns
  unfolding commit_found
  first_lem es ns = refl

  -- A directory has at least one entry beside `.` and `..`, and all of them are plain files with
  -- different names of 1 to 255 bytes, none of them white space, `)` or `#`; `makemd5` gives 1 to
  -- 33 of such bytes for every content, and a record can be made. Either there is no record yet, or there is
  -- one that ends with a commit with its number: its lines are at least one and no more than the
  -- entries of the directory, they have such names and digests, no name twice, and no name in its
  -- report has a `#`. Then `commit` succeeds, the record it leaves is of that kind again, its last
  -- number grows by one at most, and only when the record is written; and a `status` right after
  -- it reports nothing.
  pub commit-Commits :
      (es : List Entry) (old : ℕ)
      → IsListing (without_dots es)
      → 0 < length (without_dots es)
      → ((lookup loser_record (without_dots es) ≡ none) × (old ≡ 0))
        ⊎ IsRecorded (without_dots es) old
      → Commits makemd5 digest es old (commit makemd5 true (entries es))
  commit-Commits es old l some_entry (inl (none_yet, z)) =
      rw (commit_lem es l some_entry, none_yet, first_lem, z)
        (first-Commits es l none_yet some_entry)
  commit-Commits es old l some_entry (inr r) =
      rw (commit_lem es l some_entry, r.found, opened_lem, next_report makemd5 digest es l r)
        (commit_report-Commits makemd5 digest es l r)
