-- ===== src/Chat/Server/Steps.antt =====
-- MP4/MP4main.c: every branch of the loop in `main` keeps the invariant, and none of them reads a
-- NULL or freed entry for a client that has sent "try_match".
use sp.Prelude.{
  ℕ, ◌<◌, ◌≡◌, ◌≢◌, ◌⊎◌, inl, inr, refl, ◌∙◌, List, [], ◌∷◌, some, true, arith, ◌==◌, Bool-cases,
}
use sp.Chat.Server.{
  Slot, null, live, freed, is_live, Server, Message, echo, other_side_quit, other_side_quit_with,
  Result, update, read_user, disconnect, quit_message, leave_queue, on_quit, on_close,
  get_func_name,
}
use sp.Chat.Server.Invariant.{
  count, Inv, disconnect-Inv, leave_queue-Inv, count-leave_queue, connect_who-disconnect,
  connect_who-disconnect_partner, connect_who-leave_queue, free-Inv,
}

-- Distinct sockets get distinct file names for their filters.
pub get_func_name-injective :
    (a b : ℕ) → a < 10000 → b < 10000 → get_func_name a ≡ get_func_name b → a ≡ b
unfolding get_func_name
get_func_name-injective a b ha hb e = ground arith

module _ {Client : Type 0} where
  pub read_live : (x : Slot Client) → is_live x ≡ true → (c : Client) × (read_user x ≡ some c)
  unfolding read_user
  read_live null e = cc
  read_live (live c) e = (c, refl)
  read_live freed e = cc

module _ {Client Json : Type 0} where
  -- A branch ends without a fault, in a state that satisfies `P` with messages that satisfy `Q`.
  abbrev pub Ends :
      Result Client Json → (Server Client → List (ℕ × Message Client Json) → Type 0) → Type 0
  Ends r P =
      (t : Server Client) × (out : List (ℕ × Message Client Json)) × (r ≡ some (t, out)) × P t out

  -- The partner is told, and nobody else: `told` is sent to nobody but the socket `partner`.
  abbrev pub TellsPartner : ℕ → Message Client Json → List (ℕ × Message Client Json) → Type 0
  TellsPartner partner told out =
      ((partner ≡ 0) × (out ≡ [])) ⊎ ((partner ≢ 0) × (out ≡ (partner, told) ∷ []))

  quit_message-TellsPartner :
      (s : Server Client) (fd : ℕ) (told : Message Client Json)
      → TellsPartner (s.connect_who fd) told (quit_message s fd told)
  unfolding quit_message
  quit_message-TellsPartner s fd told = elim (Bool-cases (s.connect_who fd == 0)) [
    | inl e ↦ inl (ground arith, rw e)
    | inr e ↦ inr (ground arith, rw e)
  ]

  module _ {s : Server Client} (inv : Inv s) (fd : ℕ) where
    -- "quit" from a known client, in a state of the invariant: nobody is left paired with it or
    -- waiting under its name, the invariant holds, and it gets the echo; then its partner, if it
    -- has one, gets its JSON as the notice, and nothing else is sent.
    pub on_quit-Ends :
        (json : Json)
        → is_live (s.user_array fd) ≡ true
        → Ends (on_quit s fd json) λ t out.
          Inv t
          × (t.connect_who fd ≡ 0)
          × (t.connect_who (s.connect_who fd) ≡ 0)
          × (count fd t.queue ≡ 0)
          × ((told : List (ℕ × Message Client Json)) × (out ≡ (fd, echo json) ∷ told)
              × TellsPartner (s.connect_who fd) (other_side_quit_with json) told)
    unfolding on_quit
    on_quit-Ends json alive =
        let (c, e) = read_live (s.user_array fd) alive in
        let mid = disconnect-Inv inv fd in
        (
          leave_queue (disconnect s fd) fd,
          (fd, echo json) ∷ quit_message s fd (other_side_quit_with json),
          rw e,
          (
            leave_queue-Inv mid fd,
            connect_who-leave_queue mid fd fd ∙ connect_who-disconnect inv fd,
            connect_who-leave_queue mid fd (s.connect_who fd)
                ∙ connect_who-disconnect_partner inv fd,
            count-leave_queue mid fd,
            (
              quit_message s fd (other_side_quit_with json),
              refl,
              quit_message-TellsPartner s fd (other_side_quit_with json),
            ),
          ),
        )

    -- The end of the connection of a known client, in a state of the invariant: nobody is left
    -- paired with it or waiting under its name, the invariant holds and its entry is freed; its
    -- partner, if it has one, gets the notice, and nothing else is sent.
    pub on_close-Ends :
        is_live (s.user_array fd) ≡ true
        → Ends (on_close s fd) λ t out.
          Inv t
          × (t.connect_who fd ≡ 0)
          × (t.connect_who (s.connect_who fd) ≡ 0)
          × (count fd t.queue ≡ 0)
          × (t.user_array fd ≡ freed)
          × TellsPartner (s.connect_who fd) other_side_quit out
    unfolding on_close
    on_close-Ends alive =
        let (c, e) = read_live (s.user_array fd) alive in
        let mid = disconnect-Inv inv fd in
        let idle = connect_who-leave_queue mid fd fd ∙ connect_who-disconnect inv fd in
        let gone = count-leave_queue mid fd in
        let t = leave_queue (disconnect s fd) fd in
        (
          record t { user_array = update t.user_array fd freed },
          quit_message s fd other_side_quit,
          rw e,
          (
            free-Inv (leave_queue-Inv mid fd) fd idle gone,
            idle,
            connect_who-leave_queue mid fd (s.connect_who fd)
                ∙ connect_who-disconnect_partner inv fd,
            gone,
            ground arith,
            quit_message-TellsPartner s fd other_side_quit,
          ),
        )
