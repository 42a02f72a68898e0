-- ===== src/Box/Config/Lines.antt =====
-- MP5/src/csiebox_client.c and MP5/src/csiebox_server.c: the loop of `parse_arg` on a file of lines
-- with a key and a value takes each of them.
use sp.Prelude.{
  ℕ, zero, suc, ◌<◌, ◌≡◌, refl, ap, ◌∙◌, inl, inr, List, [], ◌∷◌, ◌++◌, some, Bool, true, false,
  ◌==◌, leb, if◌then◌else◌, length, length-append, arith, append-nil, append_assoc, Bool-cases,
}
use sp.Loser.Text.{Text}
use sp.Loser.Text.Laws.{lacks}
use sp.Box.Sessions.{drop_last}
use sp.Box.Sessions.Accounts.{drop_last-append}
use sp.Box.Client.Paths.{string_in}
use sp.Box.Config.{getdelim, config, read_value, next_config, read_loop, read_file}

-- The bytes that no key has: they end it.
unfoldable pub ends_key : ℕ → Bool
ends_key c = if c == b'=' then true else c == 0

pub record Line : Type 0 where
  pub key : Text
  pub val : Text

unfoldable pub put_lines : List Line → Text
put_lines [] = []
put_lines (l ∷ ls) = l.key ++ b'=' ∷ (l.val ++ b'\n' ∷ put_lines ls)

pub record IsLine (l : Line) : Type 0 where
  pub key_ends : lacks ends_key l.key ≡ true
  pub has_key : 0 < length l.key
  pub val_ends : lacks (λ c. c == b'\n') l.val ≡ true

abbrev pub AreLines : List Line → Type 0
AreLines [] = Unit {0}
AreLines (l ∷ ls) = IsLine l × AreLines ls

getdelim-stops :
    (d : ℕ) (t v rest : Text)
    → lacks (λ c. c == d) v ≡ true
    → getdelim d t (v ++ d ∷ rest) ≡ ((t ++ v) ++ d ∷ [], rest)
unfolding getdelim lacks
getdelim-stops d t [] rest h = let e : (d == d) ≡ true = ground arith in rw (e, append-nil)
getdelim-stops d t (c ∷ v) rest h = elim (Bool-cases (c == d)) [
  | inl e ↦ let h' = rw e at h in absurd (cc)
  | inr e ↦
      let h' = rw e at h in
      rw e (
        getdelim-stops d (t ++ c ∷ []) v rest h'
        ∙ ap (λ x. (x ++ d ∷ [], rest)) (append_assoc t (c ∷ []) v))
]

pub string_in-lacks : (k : Text) → lacks (λ c. c == 0) k ≡ true → string_in k ≡ k
unfolding string_in lacks
string_in-lacks [] h = refl
string_in-lacks (c ∷ k) h = ground (arith, string_in-lacks k)

key_without :
    (k : Text)
    → lacks ends_key k ≡ true
    → (lacks (λ c. c == b'=') k ≡ true) × (lacks (λ c. c == 0) k ≡ true)
unfolding lacks ends_key
key_without [] h = (refl, refl)
key_without (c ∷ k) h = ground (arith, key_without k)

read_value-line : (key v rest : Text) → read_value key (v ++ b'\n' ∷ [], rest) ≡ config key v rest
unfolding read_value drop_last
read_value-line key [] rest = refl
read_value-line key (c ∷ v) rest = ap (λ t. config key t rest) (drop_last-append (c ∷ v) b'\n')

next_config-line :
    (l : Line) (rest : Text)
    → IsLine l
    → next_config (l.key ++ b'=' ∷ (l.val ++ b'\n' ∷ rest)) ≡ config l.key l.val rest
unfolding next_config
next_config-line l rest h =
    let (k, z) = key_without l.key h.key_ends in
    let long : leb (length (l.key ++ b'=' ∷ [])) 1 ≡ false =
      let e = length-append l.key (b'=' ∷ []) in let p = h.has_key in ground arith in
    rw
      (
        getdelim-stops b'=' [] l.key (l.val ++ b'\n' ∷ rest) k,
        long,
        drop_last-append l.key b'=',
        string_in-lacks l.key z,
        getdelim-stops b'\n' [] l.val rest h.val_ends,
      )
      (read_value-line l.key l.val rest)

module _ {S : Type 0} (set_config : Text → Text → S → S) where
  unfoldable pub set_lines : List Line → S → S
  set_lines [] s = s
  set_lines (l ∷ ls) s = set_lines ls (set_config l.key l.val s)

  read_loop-lines :
      (ls : List Line) (s : S) (fuel : ℕ)
      → AreLines ls
      → length (put_lines ls) < fuel
      → read_loop set_config fuel (put_lines ls) s ≡ some (set_lines ls s)
  unfolding read_loop put_lines set_lines next_config getdelim
  read_loop-lines ls s zero h lt = absurd (omega arith)
  read_loop-lines [] s (suc fuel) h lt = refl
  read_loop-lines (l ∷ ls) s (suc fuel) (h, hs) lt =
      let e = length-append l.key (b'=' ∷ (l.val ++ b'\n' ∷ put_lines ls)) in
      let e' = length-append l.val (b'\n' ∷ put_lines ls) in
      rw (read_loop, next_config-line l (put_lines ls) h)
        (read_loop-lines ls (set_config l.key l.val s) fuel hs (omega arith))

  -- Each line is set in its order.
  pub read_file-lines :
      (ls : List Line) (s : S)
      → AreLines ls
      → read_file set_config (put_lines ls) s ≡ some (set_lines ls s)
  unfolding read_file
  read_file-lines ls s h = read_loop-lines ls s (suc (length (put_lines ls))) h (omega arith)
