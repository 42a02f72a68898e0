-- ===== src/Mine/Protocol/Loops.antt =====
-- MP3/server/boss.c: what the loops over the miners put into each pipe.
use sp.Prelude.{
  ℕ, zero, suc, ◌+◌, ◌≤◌, ◌<◌, ◌≡◌, ◌≢◌, refl, ap, ◌∙◌, inl, inr, [], ◌∷◌, ◌++◌, false, ◌==◌, arith,
  Bool-cases, update_self, update_other,
}
use sp.Loser.Text.{Text}
use sp.Mine.Miner.{Message, assign}
use sp.Mine.Boss.{Pipes, write_to, assign_loop, assign_jobs, notice_loop, tell_loop}

pub write_to_self : (to : Pipes) (i : ℕ) (msg : Message) → write_to to i msg i ≡ to i ++ msg ∷ []
unfolding write_to
write_to_self to i msg = update_self to i (to i ++ msg ∷ [])

pub write_to_other :
    (to : Pipes) (i : ℕ) (msg : Message) (j : ℕ) → j ≢ i → write_to to i msg j ≡ to j
unfolding write_to
write_to_other to i msg j h = update_other to i (to i ++ msg ∷ []) j h

assign_below :
    (num n : ℕ) (new : Text) (i left : ℕ) (to : Pipes) (j : ℕ)
    → j < i
    → assign_loop num n new i left to j ≡ to j
unfolding assign_loop
assign_below num n new i zero to j h = refl
assign_below num n new i (suc left) to j h =
    assign_below num n new (i + 1) left _ j (omega arith)
    ∙ write_to_other to i (assign i n num new) j (ground arith)

assign_at :
    (num n : ℕ) (new : Text) (i left : ℕ) (to : Pipes) (j : ℕ)
    → i ≤ j
    → j < i + left
    → assign_loop num n new i left to j ≡ to j ++ assign j n num new ∷ []
unfolding assign_loop
assign_at num n new i zero to j h k = absurd (omega arith)
assign_at num n new i (suc left) to j h k = elim (Bool-cases (j == i)) [
  | inl e ↦
      let same : j ≡ i = ground arith in
      rw same (
        assign_below num n new (i + 1) left _ i (omega arith)
        ∙ write_to_self to i (assign i n num new))
  | inr e ↦
      assign_at num n new (i + 1) left _ j (ground arith) (omega arith)
      ∙ ap (λ q. q ++ assign j n num new ∷ [])
          (write_to_other to i (assign i n num new) j (ground arith))
]

-- `assign_jobs` writes one assignment into each pipe, with the miner's own index as its start.
pub assign_jobs_lem :
    (num n : ℕ) (new : Text) (to : Pipes) (j : ℕ)
    → j < n
    → assign_jobs num new n to j ≡ to j ++ assign j n num new ∷ []
unfolding assign_jobs
assign_jobs_lem num n new to j h = assign_at num n new 0 n to j (omega arith) (omega arith)

tell_below :
    (msg : Message) (i left : ℕ) (to : Pipes) (j : ℕ) → j < i → tell_loop msg i left to j ≡ to j
unfolding tell_loop
tell_below msg i zero to j h = refl
tell_below msg i (suc left) to j h =
    tell_below msg (i + 1) left _ j (omega arith) ∙ write_to_other to i msg j (ground arith)

tell_at :
    (msg : Message) (i left : ℕ) (to : Pipes) (j : ℕ)
    → i ≤ j
    → j < i + left
    → tell_loop msg i left to j ≡ to j ++ msg ∷ []
unfolding tell_loop
tell_at msg i zero to j h k = absurd (omega arith)
tell_at msg i (suc left) to j h k = elim (Bool-cases (j == i)) [
  | inl e ↦
      let same : j ≡ i = ground arith in
      rw same (tell_below msg (i + 1) left _ i (omega arith) ∙ write_to_self to i msg)
  | inr e ↦
      tell_at msg (i + 1) left _ j (ground arith) (omega arith)
      ∙ ap (λ q. q ++ msg ∷ []) (write_to_other to i msg j (ground arith))
]

pub tell_loop_lem :
    (msg : Message) (n : ℕ) (to : Pipes) (j : ℕ) → j < n → tell_loop msg 0 n to j ≡ to j ++ msg ∷ []
tell_loop_lem msg n to j h = tell_at msg 0 n to j (omega arith) (omega arith)

notice_below :
    (w : ℕ) (msg : Message) (i left : ℕ) (to : Pipes) (j : ℕ)
    → j < i
    → notice_loop w msg i left to j ≡ to j
unfolding notice_loop
notice_below w msg i zero to j h = refl
notice_below w msg i (suc left) to j h =
    notice_below w msg (i + 1) left _ j (omega arith) ∙ elim (Bool-cases (i == w)) [
      | inl e ↦ rw e
      | inr e ↦ rw e (write_to_other to i msg j (ground arith))
    ]

notice_winner :
    (w : ℕ) (msg : Message) (i left : ℕ) (to : Pipes) → notice_loop w msg i left to w ≡ to w
unfolding notice_loop
notice_winner w msg i zero to = refl
notice_winner w msg i (suc left) to =
    notice_winner w msg (i + 1) left _ ∙ elim (Bool-cases (i == w)) [
      | inl e ↦ rw e
      | inr e ↦ rw e (write_to_other to i msg w (ground arith))
    ]

notice_at :
    (w : ℕ) (msg : Message) (i left : ℕ) (to : Pipes) (j : ℕ)
    → i ≤ j
    → j < i + left
    → j ≢ w
    → notice_loop w msg i left to j ≡ to j ++ msg ∷ []
unfolding notice_loop
notice_at w msg i zero to j h k ne = absurd (omega arith)
notice_at w msg i (suc left) to j h k ne = elim (Bool-cases (j == i)) [
  | inl e ↦
      let same : j ≡ i = ground arith in
      let other : (i == w) ≡ false = ground arith in
      rw (same, other) (notice_below w msg (i + 1) left _ i (omega arith) ∙ write_to_self to i msg)
  | inr e ↦
      notice_at w msg (i + 1) left _ j (ground arith) (omega arith) ne
      ∙ ap (λ q. q ++ msg ∷ [])
          (elim (Bool-cases (i == w)) [
            | inl same ↦ rw same
            | inr other ↦ rw other (write_to_other to i msg j (ground arith))
          ])
]

-- The notice reaches every miner but the winner.
pub notice_loop_lem :
    (w : ℕ) (msg : Message) (n : ℕ) (to : Pipes) (j : ℕ)
    → j < n
    → j ≢ w
    → notice_loop w msg 0 n to j ≡ to j ++ msg ∷ []
notice_loop_lem w msg n to j h ne = notice_at w msg 0 n to j (omega arith) (omega arith) ne

pub notice_loop-winner :
    (w : ℕ) (msg : Message) (n : ℕ) (to : Pipes) → notice_loop w msg 0 n to w ≡ to w
notice_loop-winner w msg n to = notice_winner w msg 0 n to
