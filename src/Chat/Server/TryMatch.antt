-- ===== src/Chat/Server/TryMatch.antt =====
-- MP4/MP4main.c: what the command "try_match" does, against one search of the queue.
use sp.Prelude.{
  ℕ, ◌+◌, ◌<◌, ◌≡◌, refl, ◌≢◌, List, [], ◌∷◌, ◌++◌, some, true, false, arith, ◌==◌, length,
}
use sp.Chat.Match.{Outcome, not_match, Decision, waits, paired}
use sp.Chat.Match.Search.{search_queue, fork_loop-search_queue}
use sp.Chat.Server.{
  Slot, null, live, freed, is_live, Server, Message, try_match, matched_with, erase, run_filter,
  enqueue, connect, decide, register, on_try_match,
}
use sp.Chat.Server.Invariant.{count, count_of_search, Inv, register-Inv, enqueue-Inv, connect-Inv}
use sp.Chat.Server.Steps.{Ends}

module _ {Client : Type 0} where
  -- The specification: the first client of the queue whose filter accepts the new client and that
  -- the filter of the new client accepts, or else the end of the queue.
  abbrev pub choice : (Client → Client → Outcome) → Server Client → ℕ → Client → Decision
  choice run s fd c = search_queue (run_filter run (register s fd c).user_array) fd s.queue

module _ {Client Json : Type 0} where
  abbrev pub Decided :
      Server Client
      → ℕ
      → Client
      → Decision
      → Server Client
      → List (ℕ × Message Client Json)
      → Type 0
  Decided s fd c waits t out =
      (t.queue ≡ s.queue ++ fd ∷ [])
      × (t.in_wait_queue fd ≡ true)
      × ((a : ℕ) → t.connect_who a ≡ s.connect_who a)
      × (out ≡ (fd, try_match) ∷ [])
  Decided s fd c (paired w) t out =
      (t.connect_who fd ≡ w)
      × (t.connect_who w ≡ fd)
      × (t.queue ≡ erase w s.queue)
      × (other : Client) × (s.user_array w ≡ live other)
      × (out ≡ (fd, try_match) ∷ (fd, matched_with other) ∷ (w, matched_with c) ∷ [])

module _ {Client : Type 0} where
  live_entry : (x : Slot Client) → is_live x ≡ true → (c : Client) × (x ≡ live c)
  live_entry null e = cc
  live_entry (live c) e = (c, refl)
  live_entry freed e = cc

  reg_live :
      (s : Server Client) (fd : ℕ) (c : Client) → is_live ((register s fd c).user_array fd) ≡ true
  unfolding register
  reg_live s fd c = ground arith

module _ {Client Json : Type 0} {s : Server Client} (inv : Inv s) (fd : ℕ) (c : Client)
    (ne : fd ≢ 0) (idle : s.connect_who fd ≡ 0) (absent : count fd s.queue ≡ 0) where
  decide-Ends :
      (d : Decision)
      → ((w : ℕ) → d ≡ paired w → 0 < count w s.queue)
      → Ends {Json = Json}
          (decide (register s fd c) fd c (some d))
          λ t out. Inv t × Decided s fd c d t out
  unfolding decide register enqueue
  decide-Ends waits from = (
    _,
    _,
    refl,
    (
      enqueue-Inv (register-Inv inv fd c) fd ne idle absent (reg_live s fd c),
      (refl, ground arith, λ a. refl, refl),
    ),
  )
  decide-Ends (paired w) from =
      let there = from w refl in
      let apart : (fd == w) ≡ false = ground arith in
      let (other, e) = live_entry (s.user_array w) (inv.waiting_live w there) in
      (
        connect (register s fd c) fd w,
        (fd, try_match) ∷ (fd, matched_with other) ∷ (w, matched_with c) ∷ [],
        rw (apart, e),
        (
          connect-Inv (register-Inv inv fd c) fd w ne idle absent (reg_live s fd c) there,
          (ground arith, ground arith, refl, other, e, refl),
        ),
      )

  -- "try_match" from a client without a partner that is not waiting: the server does not fault,
  -- the invariant holds again, and the client is paired with the first waiting client such that
  -- both filters accept, both of them told, or waits at the end of the queue if there is none.
  pub on_try_match-Ends :
      (run : Client → Client → Outcome)
      → Ends {Json = Json}
          (on_try_match run s fd c)
          λ t out. Inv t × Decided s fd c (choice run s fd c) t out
  unfolding on_try_match
  on_try_match-Ends run =
      let filter = run_filter run (register s fd c).user_array in
      rw (fork_loop-search_queue filter fd s.queue (length s.queue + 1) not_match (omega arith))
        (decide-Ends (choice run s fd c) (λ w e. count_of_search filter fd w s.queue e))
