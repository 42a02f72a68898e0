-- ===== src/Box/Config/Slots.antt =====
-- MP5/src/csiebox_client.c: what a line does to one buffer of the arguments and to its mark in
-- `accept_config`, and how the five of them make a round of `parse_arg`.
use sp.Prelude.{
  ◌≡◌, refl, ap, ◌∙◌, sym, inl, inr, List, [], ◌∷◌, Bool, true, leb, if◌then◌else◌, length, arith,
  Bool-cases,
}
use sp.Loser.Text.{Text, codes, same, strcmp}
use sp.Loser.Text.Laws.{same→≡}
use sp.Box.Config.{strncpy}
use sp.Box.Config.Programs.{ClientArg, client_config}
use sp.Box.Config.Lines.{Line, set_lines}

-- A buffer, and whether it was given.
unfoldable pub slot_step : Text → Text → Text → Text × Bool → Text × Bool
slot_step name key val (buf, given) =
    if same name key
    then if leb (length val) (length buf)
      then (strncpy buf val (length val), true)
      else (buf, given)
    else (buf, given)

unfoldable pub slot_run : Text → List Line → Text × Bool → Text × Bool
slot_run name [] s = s
slot_run name (l ∷ ls) s = slot_run name ls (slot_step name l.key l.val s)

pub record Slots : Type 0 where
  pub name : Text × Bool
  pub server : Text × Bool
  pub user : Text × Bool
  pub passwd : Text × Bool
  pub path : Text × Bool

unfoldable pub state_of : Slots → ClientArg × List Bool
state_of s = (
  record {
    name = s.name.0;
    server = s.server.0;
    user = s.user.0;
    passwd = s.passwd.0;
    path = s.path.0;
  },
  s.name.1 ∷ s.server.1 ∷ s.user.1 ∷ s.passwd.1 ∷ s.path.1 ∷ [],
)

unfoldable slots_step : Text → Text → Slots → Slots
slots_step key val s = record {
  name = slot_step (codes "name") key val s.name;
  server = slot_step (codes "server") key val s.server;
  user = slot_step (codes "user") key val s.user;
  passwd = slot_step (codes "passwd") key val s.passwd;
  path = slot_step (codes "path") key val s.path;
}

unfoldable pub slots_run : List Line → Slots → Slots
unfolding slot_run
slots_run ls s = record {
  name = slot_run (codes "name") ls s.name;
  server = slot_run (codes "server") ls s.server;
  user = slot_run (codes "user") ls s.user;
  passwd = slot_run (codes "passwd") ls s.passwd;
  path = slot_run (codes "path") ls s.path;
}

-- Proved for a key that is written out, then for an equal one.
abbrev Steps : Text → Text → Slots → Type 0
Steps key val s = client_config key val (state_of s) ≡ state_of (slots_step key val s)

module _ (val : Text) (s : Slots) where
  name-Steps : Steps (codes "name") val s
  unfolding client_config state_of slots_step slot_step same strcmp
  name-Steps = ground arith

  server-Steps : Steps (codes "server") val s
  unfolding client_config state_of slots_step slot_step same strcmp
  server-Steps = ground arith

  user-Steps : Steps (codes "user") val s
  unfolding client_config state_of slots_step slot_step same strcmp
  user-Steps = ground arith

  passwd-Steps : Steps (codes "passwd") val s
  unfolding client_config state_of slots_step slot_step same strcmp
  passwd-Steps = ground arith

  path-Steps : Steps (codes "path") val s
  unfolding client_config state_of slots_step slot_step same strcmp
  path-Steps = ground arith

  of_key : (name key : Text) → same name key ≡ true → Steps name val s → Steps key val s
  of_key name key e h = let p = same→≡ name key e in rw (sym p) h

  key-Steps : (key : Text) → Steps key val s
  unfolding client_config state_of slots_step slot_step
  key-Steps key = elim (Bool-cases (same (codes "name") key)) [
    | inl e ↦ of_key (codes "name") key e name-Steps
    | inr n ↦ elim (Bool-cases (same (codes "server") key)) [
      | inl e ↦ of_key (codes "server") key e server-Steps
      | inr m ↦ elim (Bool-cases (same (codes "user") key)) [
        | inl e ↦ of_key (codes "user") key e user-Steps
        | inr u ↦ elim (Bool-cases (same (codes "passwd") key)) [
          | inl e ↦ of_key (codes "passwd") key e passwd-Steps
          | inr p ↦ elim (Bool-cases (same (codes "path") key)) [
            | inl e ↦ of_key (codes "path") key e path-Steps
            | inr q ↦ rw (n, m, u, p, q)
          ]
        ]
      ]
    ]
  ]

-- The lines act on each buffer alone.
pub set_lines-slots_run :
    (ls : List Line) (s : Slots)
    → set_lines client_config ls (state_of s) ≡ state_of (slots_run ls s)
unfolding set_lines slots_run slot_run slots_step
set_lines-slots_run [] s = refl
set_lines-slots_run (l ∷ ls) s =
    ap (set_lines client_config ls) (key-Steps l.val s l.key)
    ∙ set_lines-slots_run ls (slots_step l.key l.val s)
