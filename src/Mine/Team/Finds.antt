-- ===== src/Mine/Team/Finds.antt =====
-- MP3/client/miner.c: a miner's search comes to every number of its own.
use sp.Prelude.{
  ℕ, zero, suc, ◌-◌, ◌≡◌, refl, ap, ◌∙◌, inl, inr, [], ◌++◌, Bool, true, false, ◌==◌, length,
  Bool-cases, if◌then◌else◌,
}
use sp.Loser.Text.{Text}
use sp.Mine.{is_treasure, next_append}
use sp.Mine.Miner.{
  Phase, trying, polling, asking, Miner, md5_of, turn, turn_in, turn_trying, turn_polling, resume,
  begin_rounds, first_append,
}

-- The steps of a miner that gets no message.
unfoldable pub turns : ℕ → Miner → Miner
turns zero m = m
turns (suc k) m = turns k (turn m []).miner

module _ (m : Miner) where
  abbrev pub judge : Text → Bool
  judge append = is_treasure (md5_of (m.treasure ++ append)) m.jobs.num_of_0

  abbrev pub standing : Text → Phase → Miner
  standing digest p = record m { md5 = digest; phase = p }

  -- After some steps it has found bytes that make a treasure of its size, and asks the boss.
  pub record Finds (digest : Text) (p : Phase) : Type 0 where
    pub steps : ℕ
    pub append : Text
    pub asks : (turns steps (standing digest p)).phase ≡ asking append
    pub right : judge append ≡ true

  one_turn :
      (d d' : Text) (p p' : Phase)
      → (turn (standing d p) []).miner ≡ standing d' p'
      → Finds d' p'
      → Finds d p
  unfolding turns
  one_turn d d' p p' e f = record {
    steps = suc f.steps;
    append = f.append;
    asks = ap (λ x. (turns f.steps x).phase) e ∙ f.asks;
    right = f.right;
  }

  turn_found :
      (d append : Text) (left : ℕ)
      → judge append ≡ true
      → (turn (standing d (trying append left)) []).miner.phase ≡ asking append
  unfolding turn turn_in turn_trying
  turn_found d append left h = rw h

  pub found_now : (d append : Text) (left : ℕ) → judge append ≡ true → Finds d (trying append left)
  unfolding turns
  found_now d append left h = record {
    steps = suc zero;
    append = append;
    asks = turn_found d append left h;
    right = h;
  }

  try_next :
      (d append : Text) (left : ℕ)
      → judge append ≡ false
      → (turn (standing d (trying append left)) []).miner
        ≡ standing (md5_of (m.treasure ++ append)) (
            if (next_append append m.jobs.add).1
            then polling append true
            else if left == 0
            then polling (next_append append m.jobs.add).0 false
            else trying (next_append append m.jobs.add).0 (left - 1))
  unfolding turn turn_in turn_trying
  try_next d append left h = rw h

  polled_same : (d append : Text) → Finds d (trying append 19999) → Finds d (polling append false)
  unfolding turn turn_in turn_polling resume begin_rounds
  polled_same d append f = one_turn d d (polling append false) (trying append 19999) refl f

  polled_next :
      (d append : Text)
      → Finds d (trying (first_append m.jobs.start (suc (length append))) 19999)
      → Finds d (polling append true)
  unfolding turn turn_in turn_polling resume begin_rounds
  polled_next d append f = one_turn d d (polling append true) _ refl f

  -- The next bytes of one length.
  pub goes_on :
      (d append next : Text) (left : ℕ)
      → judge append ≡ false
      → next_append append m.jobs.add ≡ (next, false)
      → ((d' : Text) (left' : ℕ) → Finds d' (trying next left'))
      → Finds d (trying append left)
  goes_on d append next left h e later =
      one_turn d (md5_of (m.treasure ++ append)) (trying append left) _ (try_next d append left h) (
        rw e (elim (Bool-cases (left == 0)) [
          | inl last ↦ rw last (polled_same _ next (later _ 19999))
          | inr more ↦ rw more (later _ (left - 1))
        ]))

  -- The first bytes of the next length.
  pub longer :
      (d append other : Text) (left : ℕ)
      → judge append ≡ false
      → next_append append m.jobs.add ≡ (other, true)
      → ((d' : Text) → Finds d' (trying (first_append m.jobs.start (suc (length append))) 19999))
      → Finds d (trying append left)
  longer d append other left h e later =
      one_turn d (md5_of (m.treasure ++ append)) (trying append left) _ (try_next d append left h)
        (rw e (polled_next _ append (later _)))
