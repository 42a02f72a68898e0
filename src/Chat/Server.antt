-- ===== src/Chat/Server.antt =====
-- MP4/MP4main.c: the arrays of the server and the branches of the loop in `main`.
-- JSON texts, compiled filters and sockets are not part of the program: a request comes parsed, a
-- filter is run by the parameter `run`, and a branch returns the messages that it sends.
-- `none` is a read through a NULL or freed entry of `user_array`.
pub mod Invariant
pub mod Steps
pub mod TryMatch
pub mod Reach
mod Examples
use sp.Prelude.{
  ℕ, zero, suc, ◌+◌, ◌-◌, ◌*◌, ◌/◌, ◌%◌, List, [], ◌∷◌, ◌++◌, Option, none, some, Bool, true, false,
  ◌==◌, if◌then◌else◌, length, ◌>>=◌,
}
use sp.Chat.Match.{Outcome, answer, broken, Report, not_match, Decision, waits, paired, fork_loop}

-- An entry of `user_array`, with the filter text that `filter_function_array` holds beside it.
pub data Slot (A : Type 0) : Type 0 where
  null : Slot A
  live : A → Slot A
  freed : Slot A

abbrev pub is_live : {A : Type 0} → Slot A → Bool
is_live (live a) = true
is_live _ = false

-- `receive_message` and `other_side_quit_with` have the client's JSON, its "cmd" replaced; the plain
-- `other_side_quit` is an object with nothing but its "cmd".
pub data Message (Client Json : Type 0) : Type 0 where
  try_match : Message Client Json
  matched_with : Client → Message Client Json
  echo : Json → Message Client Json
  receive_message : Json → Message Client Json
  other_side_quit : Message Client Json
  other_side_quit_with : Json → Message Client Json

pub record Server (Client : Type 0) : Type 0 where
  pub user_array : ℕ → Slot Client
  pub connect_who : ℕ → ℕ
  pub in_wait_queue : ℕ → Bool
  pub queue : List ℕ

abbrev pub update {ℓ} : {A : Type ℓ} → (ℕ → A) → ℕ → A → ℕ → A
update f k v q = if k == q then v else f q

-- What `remove_waiting` of `Chat.Queue` does to the clients in the queue.
unfoldable pub erase : ℕ → List ℕ → List ℕ
erase fd [] = []
erase fd (w ∷ ws) = if w == fd then ws else w ∷ erase fd ws

-- `get_func_name`: "ff" and four digits.
unfoldable pub get_func_name : ℕ → List ℕ
get_func_name fd =
    b'f'
    ∷ b'f'
    ∷ (fd / 1000 + b'0')
    ∷ (fd % 1000 / 100 + b'0')
    ∷ (fd % 1000 % 100 / 10 + b'0')
    ∷ (fd % 1000 % 100 % 10 + b'0')
    ∷ []

-- What a branch leaves behind, and the messages that it sends, each with its socket.
abbrev pub Result : Type 0 → Type 0 → Type 0
Result Client Json = Option (Server Client × List (ℕ × Message Client Json))

module _ {Client : Type 0} where
  unfoldable pub read_user : Slot Client → Option Client
  read_user null = none
  read_user (live c) = some c
  read_user freed = none

  -- The filter of the client `w` at the user of `fd`, as the child finds both.
  unfoldable pub run_filter : (Client → Client → Outcome) → (ℕ → Slot Client) → ℕ → ℕ → Outcome
  unfolding read_user
  run_filter run users w fd = elim (read_user (users w)) [
    | none ↦ broken
    | some c ↦ elim (read_user (users fd)) [ none ↦ broken | some d ↦ run c d ]
  ]

  -- `insert(fd); in_wait_queue[fd] = 1;`
  unfoldable pub enqueue : Server Client → ℕ → Server Client
  enqueue s fd = record s {
    in_wait_queue = update s.in_wait_queue fd true;
    queue = s.queue ++ fd ∷ [];
  }

  -- The branch "matched", for `res2 = w`.
  unfoldable pub connect : Server Client → ℕ → ℕ → Server Client
  unfolding erase
  connect s fd w = record s {
    connect_who = update (update s.connect_who w fd) fd w;
    in_wait_queue = update s.in_wait_queue w false;
    queue = erase w s.queue;
  }

  unfoldable pub register : Server Client → ℕ → Client → Server Client
  register s fd c = record s { user_array = update s.user_array fd (live c) }

  -- `connect_who[connect_who[fd]] = 0; connect_who[fd] = 0;` if there is a partner.
  unfoldable pub disconnect : Server Client → ℕ → Server Client
  disconnect s fd =
      if s.connect_who fd == 0
      then s
      else record s { connect_who = update (update s.connect_who (s.connect_who fd) 0) fd 0 }

  -- The search loop of both branches. `in_wait_queue[fd]==0;` behind it is a comparison.
  unfoldable pub leave_queue : Server Client → ℕ → Server Client
  unfolding erase
  leave_queue s fd = if s.in_wait_queue fd then record s { queue = erase fd s.queue } else s

  abbrev pub start : Server Client
  start = record {
    user_array = λ _. null;
    connect_who = λ _. 0;
    in_wait_queue = λ _. false;
    queue = [];
  }

module _ {Client Json : Type 0} where
  unfoldable pub decide : Server Client → ℕ → Client → Option Decision → Result Client Json
  unfolding enqueue connect read_user
  decide s fd c none = none
  decide s fd c (some waits) = some (enqueue s fd, (fd, try_match) ∷ [])
  decide s fd c (some (paired w)) = do
    other ← read_user (s.user_array w)
    some (connect s fd w, (fd, try_match) ∷ (fd, matched_with other) ∷ (w, matched_with c) ∷ [])

  -- The command "try_match". One child more than there are clients in the queue is enough.
  unfoldable pub on_try_match :
      (Client → Client → Outcome) → Server Client → ℕ → Client → Result Client Json
  on_try_match run s fd c = decide (register s fd c) fd c (
      fork_loop (run_filter run (register s fd c).user_array) (length s.queue + 1) fd s.queue 0
        not_match)

  -- The command "send_message": the sender is not asked whether it has a partner.
  unfoldable pub on_send_message : Server Client → ℕ → Json → Result Client Json
  on_send_message s fd json =
      some (s, (fd, echo json) ∷ (s.connect_who fd, receive_message json) ∷ [])

  -- What is sent to the partner, if there is one.
  unfoldable pub quit_message :
      Server Client → ℕ → Message Client Json → List (ℕ × Message Client Json)
  quit_message s fd notice = if s.connect_who fd == 0 then [] else (s.connect_who fd, notice) ∷ []

  -- Any other command.
  unfoldable pub on_quit : Server Client → ℕ → Json → Result Client Json
  on_quit s fd json = do
    _ ← read_user (s.user_array fd)
    some (
      leave_queue (disconnect s fd) fd,
      (fd, echo json) ∷ quit_message s fd (other_side_quit_with json),
    )

  -- `recv` returns 0.
  unfoldable pub on_close : Server Client → ℕ → Result Client Json
  on_close s fd = do
    _ ← read_user (s.user_array fd)
    let t = leave_queue (disconnect s fd) fd
    some (record t { user_array = update t.user_array fd freed }, quit_message s fd other_side_quit)
