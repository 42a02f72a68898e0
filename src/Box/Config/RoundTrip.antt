-- ===== src/Box/Config/RoundTrip.antt =====
-- MP5/src/csiebox_client.c: `parse_arg` reads back the configuration that is written in any order.
use sp.Prelude.{
  ℕ, zero, suc, ◌≤◌, ◌<◌, ◌≡◌, refl, ap, ◌∙◌, inl, inr, List, [], ◌∷◌, Option, none, some, Bool,
  true, false, ◌==◌, leb, if◌then◌else◌, length, length-replicate, replicate, arith, Bool-cases,
}
use sp.Loser.Text.{Text, codes, same}
use sp.Loser.Text.Laws.{same→≡, lacks}
use sp.Box.Client.Paths.{string_in}
use sp.Box.Config.{strncpy, all_accepted}
use sp.Box.Config.Programs.{ClientArg, client_config, client_parse_arg, empty_client, verdict}
use sp.Box.Config.Lines.{Line, AreLines, put_lines, read_file-lines}
use sp.Box.Config.Slots.{slot_step, slot_run, Slots, state_of, slots_run, set_lines-slots_run}

unfoldable pub has_key : Text → List Line → Bool
has_key key [] = false
has_key key (l ∷ ls) = if same key l.key then true else has_key key ls

-- No key stands in two lines.
abbrev pub AreOnce : List Line → Type 0
AreOnce [] = Unit {0}
AreOnce (l ∷ ls) = (has_key l.key ls ≡ false) × AreOnce ls

unfoldable pub value_of : Text → List Line → Option Text
value_of key [] = none
value_of key (l ∷ ls) = if same key l.key then some l.val else value_of key ls

-- A value that fits into a buffer with its end, and has no end in it.
pub record Gives (ls : List Line) (key val : Text) (size : ℕ) : Type 0 where
  pub given : value_of key ls ≡ some val
  pub fits : length val < size
  pub whole : lacks (λ c. c == 0) val ≡ true

pub record GivesAll (ls : List Line) (path_max : ℕ) (arg : ClientArg) : Type 0 where
  pub name : Gives ls (codes "name") arg.name 30
  pub server : Gives ls (codes "server") arg.server 30
  pub user : Gives ls (codes "user") arg.user 30
  pub passwd : Gives ls (codes "passwd") arg.passwd 30
  pub path : Gives ls (codes "path") arg.path path_max

-- The strings in the buffers.
unfoldable pub strings_of : ClientArg → ClientArg
unfolding string_in
strings_of arg = record {
  name = string_in arg.name;
  server = string_in arg.server;
  user = string_in arg.user;
  passwd = string_in arg.passwd;
  path = string_in arg.path;
}

slot_run-without :
    (key : Text) (ls : List Line) (s : Text × Bool) → has_key key ls ≡ false → slot_run key ls s ≡ s
unfolding slot_run slot_step has_key
slot_run-without key [] s h = refl
slot_run-without key (l ∷ ls) s h = elim (Bool-cases (same key l.key)) [
  | inl e ↦ let h' = rw e at h in cc
  | inr e ↦ let h' = rw e at h in rw e (slot_run-without key ls s h')
]

slot_run-value_of :
    (key : Text) (ls : List Line) (buf val : Text)
    → AreOnce ls
    → value_of key ls ≡ some val
    → length val ≤ length buf
    → slot_run key ls (buf, false) ≡ (strncpy buf val (length val), true)
unfolding slot_run slot_step value_of
slot_run-value_of key [] buf val once h le = cc
slot_run-value_of key (l ∷ ls) buf val (o, once) h le = elim (Bool-cases (same key l.key)) [
  | inl e ↦
      let h' = rw e at h in
      let v : l.val ≡ val = cc in
      let none_else : has_key key ls ≡ false = rw (same→≡ key l.key e) o in
      let fits : leb (length l.val) (length buf) ≡ true = rw v (ground arith) in
      rw (e, fits)
        (slot_run-without key ls _ none_else ∙ ap (λ t. (strncpy buf t (length t), true)) v)
  | inr e ↦ let h' = rw e at h in rw e (slot_run-value_of key ls buf val once h' le)
]

string_in-strncpy :
    (n : ℕ) (val : Text)
    → length val < n
    → lacks (λ c. c == 0) val ≡ true
    → string_in (strncpy (replicate n 0) val (length val)) ≡ val
unfolding string_in strncpy lacks
string_in-strncpy zero val lt h = absurd (omega arith)
string_in-strncpy (suc n) [] lt h = refl
string_in-strncpy (suc n) (c ∷ val) lt h = ground (arith, string_in-strncpy n val)

-- A buffer of zeros takes the value of its key.
slot_run-Gives :
    (ls : List Line) (key val : Text) (size : ℕ)
    → AreOnce ls
    → Gives ls key val size
    → (buf : Text) × (slot_run key ls (replicate size 0, false) ≡ (buf, true))
      × (string_in buf ≡ val)
slot_run-Gives ls key val size once g =
    let zero_byte : ℕ = 0 in
    let l = length-replicate size zero_byte in
    let lt = g.fits in
    (
      strncpy (replicate size 0) val (length val),
      slot_run-value_of key ls (replicate size 0) val once g.given (omega arith),
      string_in-strncpy size val g.fits g.whole,
    )

-- A file has a line for each of the five keys, with a value that fits into its buffer, and maybe
-- other lines, no key twice. No key is empty or has a `=` or a zero byte, no value a newline, and
-- the five values have no zero byte. In any order of the lines `parse_arg` returns 1 and the strings
-- in the buffers are the values.
pub client_parse_arg-put_lines :
    (path_max : ℕ) (ls : List Line) (wanted : ClientArg)
    → AreLines ls
    → AreOnce ls
    → GivesAll ls path_max wanted
    → (arg : ClientArg) × (client_parse_arg 2 (some (put_lines ls)) (empty_client path_max)
        ≡ some (1, arg))
      × (strings_of arg ≡ wanted)
unfolding client_parse_arg empty_client verdict all_accepted strings_of state_of slots_run
client_parse_arg-put_lines path_max ls wanted are once gives =
    let (n, en, sn) = slot_run-Gives ls (codes "name") wanted.name 30 once gives.name in
    let (s, es, ss) = slot_run-Gives ls (codes "server") wanted.server 30 once gives.server in
    let (u, eu, su) = slot_run-Gives ls (codes "user") wanted.user 30 once gives.user in
    let (p, ep, sp') = slot_run-Gives ls (codes "passwd") wanted.passwd 30 once gives.passwd in
    let (q, eq, sq) = slot_run-Gives ls (codes "path") wanted.path path_max once gives.path in
    let fresh : Slots = record {
      name = (replicate 30 0, false);
      server = (replicate 30 0, false);
      user = (replicate 30 0, false);
      passwd = (replicate 30 0, false);
      path = (replicate path_max 0, false);
    } in
    let filled : slots_run ls fresh ≡ record {
      name = (n, true);
      server = (s, true);
      user = (u, true);
      passwd = (p, true);
      path = (q, true);
    } =
      cc in
    (
      record { name = n; server = s; user = u; passwd = p; path = q },
      ap (verdict 1) (
          read_file-lines client_config ls (state_of fresh) are
          ∙ ap some (set_lines-slots_run ls fresh ∙ ap state_of filled)),
      cc,
    )
