-- ===== src/Chat/Server/Invariant.antt =====
-- MP4/MP4main.c: partners point at each other, and the queue holds clients without a partner, once.
use sp.Prelude.{
  ℕ, ◌+◌, ◌-◌, ◌≤◌, ◌<◌, ◌≡◌, ◌≢◌, inl, inr, List, [], ◌∷◌, ◌++◌, true, arith, ◌==◌, if◌then◌else◌,
  Bool-cases,
}
use sp.Chat.Match.{Outcome, paired}
use sp.Chat.Match.Search.{search_queue}
use sp.Chat.Server.{
  freed, is_live, Server, update, erase, enqueue, connect, register, disconnect, leave_queue,
}

unfoldable pub count : ℕ → List ℕ → ℕ
count q [] = 0
count q (w ∷ ws) = (if w == q then 1 else 0) + count q ws

pub count-append :
    (q fd : ℕ) (ws : List ℕ) → count q (ws ++ fd ∷ []) ≡ count q ws + (if fd == q then 1 else 0)
unfolding count
count-append q fd [] = ground arith
count-append q fd (w ∷ ws) = ground (arith, count-append q fd ws)

pub count-erase :
    (q w : ℕ) (ws : List ℕ) → count q (erase w ws) ≡ count q ws - (if w == q then 1 else 0)
unfolding count erase
count-erase q w [] = ground arith
count-erase q w (x ∷ xs) = ground (arith, count-erase q w xs)

pub count_of_search :
    (filter : ℕ → ℕ → Outcome) (fd w : ℕ) (ws : List ℕ)
    → search_queue filter fd ws ≡ paired w
    → 0 < count w ws
unfolding count search_queue
count_of_search filter fd w [] e = cc
count_of_search filter fd w (x ∷ xs) e = ground (arith, count_of_search filter fd w xs)

module _ {Client : Type 0} where
  pub record Inv (s : Server Client) : Type 0 where
    pub nobody : s.connect_who 0 ≡ 0
    pub mutual_partners : (a : ℕ) → s.connect_who a ≢ 0 → s.connect_who (s.connect_who a) ≡ a
    pub not_alone : (a : ℕ) → s.connect_who a ≡ a → a ≡ 0
    pub partner_live : (a : ℕ) → s.connect_who a ≢ 0 → is_live (s.user_array a) ≡ true
    pub once : (a : ℕ) → count a s.queue ≤ 1
    pub flagged : (a : ℕ) → 0 < count a s.queue → s.in_wait_queue a ≡ true
    pub single : (a : ℕ) → 0 < count a s.queue → s.connect_who a ≡ 0
    pub waiting_live : (a : ℕ) → 0 < count a s.queue → is_live (s.user_array a) ≡ true
    pub real : (a : ℕ) → 0 < count a s.queue → a ≢ 0

  module _ {s : Server Client} (inv : Inv s) (fd : ℕ) where
    open inv use {
      nobody, mutual_partners, not_alone, partner_live, once, flagged, single, waiting_live, real,
    }

    pub register-Inv : (c : Client) → Inv (register s fd c)
    unfolding register
    register-Inv c = record {
      nobody = nobody;
      mutual_partners = mutual_partners;
      not_alone = not_alone;
      partner_live = λ a h. ground (arith, partner_live a h);
      once = once;
      flagged = flagged;
      single = single;
      waiting_live = λ a h. ground (arith, waiting_live a h);
      real = real;
    }

    pub enqueue-Inv :
        fd ≢ 0
        → s.connect_who fd ≡ 0
        → count fd s.queue ≡ 0
        → is_live (s.user_array fd) ≡ true
        → Inv (enqueue s fd)
    unfolding enqueue
    enqueue-Inv ne idle absent alive = record {
      nobody = nobody;
      mutual_partners = mutual_partners;
      not_alone = not_alone;
      partner_live = partner_live;
      once = λ a. ground (arith, once a, count-append a fd s.queue);
      flagged = λ a h. ground (arith, flagged a, count-append a fd s.queue);
      single = λ a h. ground (arith, single a, count-append a fd s.queue);
      waiting_live = λ a h. ground (arith, waiting_live a, count-append a fd s.queue);
      real = λ a h. ground (arith, real a, count-append a fd s.queue);
    }

    pub connect-Inv :
        (w : ℕ)
        → fd ≢ 0
        → s.connect_who fd ≡ 0
        → count fd s.queue ≡ 0
        → is_live (s.user_array fd) ≡ true
        → 0 < count w s.queue
        → Inv (connect s fd w)
    unfolding connect
    connect-Inv w ne idle absent alive waits_in = record {
      nobody = ground (arith, real w waits_in);
      mutual_partners = λ a h.
          ground (arith, mutual_partners a, single w waits_in, real w waits_in, mutual_partners fd);
      not_alone = λ a h. ground (arith, not_alone a);
      partner_live = λ a h. ground (arith, partner_live a, waiting_live w waits_in);
      once = λ a. ground (arith, once a, count-erase a w s.queue);
      flagged = λ a h. ground (arith, flagged a, once a, count-erase a w s.queue);
      single = λ a h. ground (arith, single a, once a, count-erase a w s.queue);
      waiting_live = λ a h. ground (arith, waiting_live a, count-erase a w s.queue);
      real = λ a h. ground (arith, real a, count-erase a w s.queue);
    }

    pub disconnect-Inv : Inv (disconnect s fd)
    unfolding disconnect
    disconnect-Inv = elim (Bool-cases (s.connect_who fd == 0)) [
      | inl e ↦ rw e inv
      | inr e ↦ rw e (record {
        nobody = ground arith;
        mutual_partners = λ a h. ground (arith, mutual_partners a, mutual_partners fd, nobody);
        not_alone = λ a h. ground (arith, not_alone a);
        partner_live = λ a h. ground (arith, partner_live a);
        once = once;
        flagged = flagged;
        single = λ a h. ground (arith, single a);
        waiting_live = waiting_live;
        real = real;
      })
    ]

    pub leave_queue-Inv : Inv (leave_queue s fd)
    unfolding leave_queue
    leave_queue-Inv = elim (Bool-cases (s.in_wait_queue fd)) [
      | inr e ↦ rw e inv
      | inl e ↦ rw e (record {
        nobody = nobody;
        mutual_partners = mutual_partners;
        not_alone = not_alone;
        partner_live = partner_live;
        once = λ a. ground (arith, once a, count-erase a fd s.queue);
        flagged = λ a h. ground (arith, flagged a, count-erase a fd s.queue);
        single = λ a h. ground (arith, single a, count-erase a fd s.queue);
        waiting_live = λ a h. ground (arith, waiting_live a, count-erase a fd s.queue);
        real = λ a h. ground (arith, real a, count-erase a fd s.queue);
      })
    ]

    -- A client that has left is nowhere in the queue, although its flag is not cleared.
    pub count-leave_queue : count fd (leave_queue s fd).queue ≡ 0
    unfolding leave_queue
    count-leave_queue = ground (arith, once fd, flagged fd, count-erase fd fd s.queue)

    pub connect_who-disconnect : (disconnect s fd).connect_who fd ≡ 0
    unfolding disconnect
    connect_who-disconnect = ground arith

    pub connect_who-disconnect_partner : (disconnect s fd).connect_who (s.connect_who fd) ≡ 0
    unfolding disconnect
    connect_who-disconnect_partner = ground (arith, nobody)

    pub connect_who-leave_queue : (a : ℕ) → (leave_queue s fd).connect_who a ≡ s.connect_who a
    unfolding leave_queue
    connect_who-leave_queue a = ground arith

    -- An entry that nobody refers to may be freed.
    pub free-Inv :
        s.connect_who fd ≡ 0
        → count fd s.queue ≡ 0
        → Inv (record s { user_array = update s.user_array fd freed })
    free-Inv idle absent = record {
      nobody = nobody;
      mutual_partners = mutual_partners;
      not_alone = not_alone;
      partner_live = λ a h. ground (arith, partner_live a);
      once = once;
      flagged = flagged;
      single = single;
      waiting_live = λ a h. ground (arith, waiting_live a);
      real = real;
    }
