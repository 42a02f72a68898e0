-- ===== src/Chat/Server/Reach.antt =====
-- MP4/MP4main.c: the server over any sequence of requests of well-behaved clients.
use sp.Prelude.{ℕ, ◌≡◌, refl, sym, ◌≢◌, List, [], ◌∷◌, some, true, arith}
use sp.Chat.Match.{Outcome}
use sp.Chat.Server.{
  is_live, Server, Message, echo, receive_message, Result, on_try_match, on_send_message, on_quit,
  on_close, start,
}
use sp.Chat.Server.Invariant.{count, Inv}
use sp.Chat.Server.Steps.{Ends, on_quit-Ends, on_close-Ends}
use sp.Chat.Server.TryMatch.{on_try_match-Ends}

module _ {Client : Type 0} where
  pub start-Inv : Inv {Client = Client} start
  unfolding count
  start-Inv = record {
    nobody = refl;
    mutual_partners = λ a h. absurd (h refl);
    not_alone = λ a e. sym e;
    partner_live = λ a h. absurd (h refl);
    once = λ a. omega arith;
    flagged = λ a h. absurd (omega arith);
    single = λ a h. refl;
    waiting_live = λ a h. absurd (omega arith);
    real = λ a h. absurd (omega arith);
  }

module _ {Client Json : Type 0} where
  -- The state that a branch returns is the one that its theorem speaks of.
  same_state :
      (r : Result Client Json) (s t : Server Client) (o p : List (ℕ × Message Client Json))
      → r ≡ some (s, o)
      → r ≡ some (t, p)
      → s ≡ t
  same_state r s t o p e f = ground arith

  send_same :
      (s t : Server Client) (fd : ℕ) (json : Json) (out : List (ℕ × Message Client Json))
      → on_send_message s fd json ≡ some (t, out)
      → t ≡ s
  unfolding on_send_message
  send_same s t fd json out e = ground arith

  -- "send_message" from a client with a partner changes nothing: the message is echoed and goes to
  -- the partner, whose own partner is the sender.
  pub on_send_message-Ends :
      {s : Server Client} (inv : Inv s) (fd : ℕ) (json : Json)
      → s.connect_who fd ≢ 0
      → Ends (on_send_message s fd json) λ t out.
        (t ≡ s)
        × (out ≡ (fd, echo json) ∷ (s.connect_who fd, receive_message json) ∷ [])
        × (s.connect_who (s.connect_who fd) ≡ fd)
  unfolding on_send_message
  on_send_message-Ends {s} inv fd json busy =
      (s, _, refl, (refl, refl, inv.mutual_partners fd busy))

module _ {Client : Type 0} (Json : Type 0) (run : Client → Client → Outcome) where
  -- A request, from a socket other than 0. A client asks for a match only while it has none and
  -- is not waiting, and quits or closes only after it has asked once.
  pub data Step (s : Server Client) (t : Server Client) : Type 0 where
    asks :
        (fd : ℕ) (c : Client) (out : List (ℕ × Message Client Json))
        → fd ≢ 0
        → s.connect_who fd ≡ 0
        → count fd s.queue ≡ 0
        → on_try_match run s fd c ≡ some (t, out)
        → Step s t
    sends :
        (fd : ℕ) (json : Json) (out : List (ℕ × Message Client Json))
        → on_send_message s fd json ≡ some (t, out)
        → Step s t
    quits :
        (fd : ℕ) (json : Json) (out : List (ℕ × Message Client Json))
        → is_live (s.user_array fd) ≡ true
        → on_quit s fd json ≡ some (t, out)
        → Step s t
    closes :
        (fd : ℕ) (out : List (ℕ × Message Client Json))
        → is_live (s.user_array fd) ≡ true
        → on_close s fd ≡ some (t, out)
        → Step s t

  pub data Reach : Server Client → Type 0 where
    begin : Reach start
    later : {s t : Server Client} → Reach s → Step s t → Reach t

  Step-Inv : {s t : Server Client} → Inv s → Step s t → Inv t
  Step-Inv {s} {t} inv (asks fd c out ne idle absent e) =
      let (u, p, f, post) = on_try_match-Ends {Json = Json} inv fd c ne idle absent run in
      rw (same_state _ t u out p e f) post.0
  Step-Inv {s} {t} inv (quits fd json out alive e) =
      let (u, p, f, post) = on_quit-Ends inv fd json alive in rw (same_state _ t u out p e f) post.0
  Step-Inv {s} {t} inv (closes fd out alive e) =
      let (u, p, f, post) = on_close-Ends {Json = Json} inv fd alive in
      rw (same_state _ t u out p e f) post.0
  Step-Inv {s} {t} inv (sends fd json out e) = rw (send_same s t fd json out e) inv

  -- In every state that such requests lead to, partners point at each other, nobody is its own
  -- partner, and the queue holds each waiting client once, and only clients without a partner.
  pub Reach-Inv : {s : Server Client} → Reach s → Inv s
  Reach-Inv begin = start-Inv
  Reach-Inv (later r st) = Step-Inv (Reach-Inv r) st
