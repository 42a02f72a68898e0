-- ===== src/Chat/Server/Examples.antt =====
-- MP4/MP4main.c: two clients, 4 and 5, whose filters accept everybody, and the theorems at them.
use sp.Prelude.{ℕ, ◌≡◌, refl, List, [], ◌∷◌, none, some, true, arith}
use sp.Chat.Match.{fork_loop, match, Outcome, answer}
use sp.Chat.Server.{
  freed, Server, Message, try_match, echo, other_side_quit, other_side_quit_with, enqueue, connect,
  register, decide, on_try_match, on_quit, on_close, start, read_user, disconnect, leave_queue,
  quit_message, erase,
}
use sp.Chat.Server.Invariant.{count, Inv, register-Inv, enqueue-Inv, connect-Inv}
use sp.Chat.Server.Steps.{Ends, TellsPartner, on_quit-Ends, on_close-Ends}
use sp.Chat.Server.TryMatch.{Decided, choice, on_try_match-Ends}
use sp.Chat.Server.Reach.{Reach, begin, later, asks, Reach-Inv, start-Inv}

abbrev everybody : ℕ → ℕ → Outcome
everybody _ _ = answer true

abbrev one_waits : Server ℕ
one_waits = enqueue (register start 4 70) 4

one_waits-Inv : Inv one_waits
unfolding register enqueue count
one_waits-Inv = enqueue-Inv (register-Inv start-Inv 4 70) 4 (omega arith) refl refl refl

abbrev pair_up : Server ℕ
pair_up = connect (register one_waits 5 80) 5 4

pair_up-Inv : Inv pair_up
unfolding register enqueue count
pair_up-Inv =
    connect-Inv (register-Inv one_waits-Inv 5 80) 5 4 (omega arith) refl refl refl (omega arith)

on_try_match-Ends_example :
    Ends {Json = ℕ}
      (on_try_match everybody one_waits 5 80)
      λ t out. Inv t × Decided one_waits 5 80 (choice everybody one_waits 5 80) t out
unfolding register enqueue count
on_try_match-Ends_example = on_try_match-Ends one_waits-Inv 5 80 (omega arith) refl refl everybody

on_quit-Ends_example : Ends {Json = ℕ} (on_quit pair_up 5 99) λ t out.
    Inv t
    × (t.connect_who 5 ≡ 0)
    × (t.connect_who (pair_up.connect_who 5) ≡ 0)
    × (count 5 t.queue ≡ 0)
    × ((told : List (ℕ × Message ℕ ℕ)) × (out ≡ (5, echo 99) ∷ told)
        × TellsPartner (pair_up.connect_who 5) (other_side_quit_with 99) told)
unfolding register enqueue connect
on_quit-Ends_example = on_quit-Ends pair_up-Inv 5 99 refl

on_close-Ends_example : Ends {Json = ℕ} (on_close one_waits 4) λ t out.
    Inv t
    × (t.connect_who 4 ≡ 0)
    × (t.connect_who (one_waits.connect_who 4) ≡ 0)
    × (count 4 t.queue ≡ 0)
    × (t.user_array 4 ≡ freed)
    × TellsPartner (one_waits.connect_who 4) other_side_quit out
unfolding register enqueue
on_close-Ends_example = on_close-Ends one_waits-Inv 4 refl

one_asks : Reach ℕ everybody one_waits
unfolding on_try_match decide fork_loop match count
one_asks = later begin (asks 4 70 ((4, try_match) ∷ []) (omega arith) refl refl refl)

Reach-Inv_example : Inv one_waits
Reach-Inv_example = Reach-Inv ℕ everybody one_asks

-- A client that closes before it has sent "try_match" makes the server read through NULL.
close_first : on_close {Client = ℕ} {Json = ℕ} start 4 ≡ none
unfolding on_close read_user
close_first = refl

-- Client 5 has the partner 4, and tells it.
partner_told :
    on_quit {Json = ℕ} pair_up 5 99
    ≡ some (disconnect pair_up 5, (5, echo 99) ∷ (4, other_side_quit_with 99) ∷ [])
unfolding on_quit register enqueue connect disconnect leave_queue quit_message read_user erase
partner_told = refl
