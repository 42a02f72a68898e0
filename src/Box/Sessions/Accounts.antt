-- ===== src/Box/Sessions/Accounts.antt =====
-- MP5/src/csiebox_server.c: the accounts of a well-formed file are the ones that can log in.
use sp.Prelude.{
  ℕ, ◌<◌, ◌≡◌, refl, sym, ap, ◌∙◌, inl, inr, List, [], ◌∷◌, ◌++◌, Option, none, some, Bool, true,
  false, ◌||◌, leb, ◌==◌, if◌then◌else◌, length, length-append, arith, append-nil, append_assoc,
  Bool-cases,
}
use sp.Loser.Text.{Text, same}
use sp.Loser.Text.Laws.{lacks, lacks-append, lacks-weaken}
use sp.Box.Sessions.{lines, drop_last, token, strtok, account_loop, get_account_info}

-- The bytes that end a field or a line.
unfoldable pub ends : ℕ → Bool
ends c = (c == b',') || (c == b'\n')

pub record Account : Type 0 where
  pub user : Text
  pub passwd : Text

-- The account file, as its administrator writes it.
unfoldable pub put_accounts : List Account → Text
put_accounts [] = []
put_accounts (a ∷ as') = a.user ++ b',' ∷ (a.passwd ++ b'\n' ∷ put_accounts as')

unfoldable pub passwd_of : Text → List Account → Option Text
passwd_of user [] = none
passwd_of user (a ∷ as') = if same user a.user then some a.passwd else passwd_of user as'

abbrev pub AreAccounts : List Account → Type 0
AreAccounts [] = Unit {0}
AreAccounts (a ∷ as') =
    (lacks ends a.user ≡ true)
    × (0 < length a.user)
    × (lacks ends a.passwd ≡ true)
    × (0 < length a.passwd)
    × AreAccounts as'

unfoldable no_newline : ℕ → Bool
no_newline c = c == b'\n'

lines_from :
    (w v rest : Text)
    → lacks (λ c. c == b'\n') v ≡ true
    → lines w (v ++ b'\n' ∷ rest) ≡ (w ++ (v ++ b'\n' ∷ [])) ∷ lines [] rest
unfolding lines lacks
lines_from w [] rest h = refl
lines_from w (c ∷ v) rest h = elim (Bool-cases (c == b'\n')) [
  | inl e ↦ let h' = rw e at h in absurd (cc)
  | inr e ↦ let h' = rw e at h in rw e (lines_from (w ++ c ∷ []) v rest h' ∙ rw append_assoc)
]

pub drop_last-append : (v : Text) (c : ℕ) → drop_last (v ++ c ∷ []) ≡ v
unfolding drop_last
drop_last-append [] c = refl
drop_last-append (x ∷ []) c = refl
drop_last-append (x ∷ y ∷ v) c = ap (λ t. x ∷ t) (drop_last-append (y ∷ v) c)

token_comma : (w v rest : Text) → lacks ends v ≡ true → token w (v ++ b',' ∷ rest) ≡ (w ++ v, rest)
unfolding token lacks ends
token_comma w [] rest h = rw append-nil
token_comma w (c ∷ v) rest h = elim (Bool-cases (c == b',')) [
  | inl e ↦ let h' = rw e at h in absurd (cc)
  | inr e ↦ rw e (token_comma (w ++ c ∷ []) v rest (ground arith) ∙ rw append_assoc)
]

token_end : (w v : Text) → lacks ends v ≡ true → token w v ≡ (w ++ v, [])
unfolding token lacks ends
token_end w [] h = rw append-nil
token_end w (c ∷ v) h = elim (Bool-cases (c == b',')) [
  | inl e ↦ let h' = rw e at h in absurd (cc)
  | inr e ↦ rw e (token_end (w ++ c ∷ []) v (ground arith) ∙ rw append_assoc)
]

strtok_step : (c : ℕ) (cs : Text) → (c == b',') ≡ false → strtok (c ∷ cs) ≡ some (token [] (c ∷ cs))
unfolding strtok
strtok_step c cs n = rw n

no_comma : (c : ℕ) (v : Text) → lacks ends (c ∷ v) ≡ true → (c == b',') ≡ false
unfolding lacks ends
no_comma c v h = ground arith

strtok-token :
    (v rest : Text)
    → lacks ends v ≡ true
    → 0 < length v
    → strtok (v ++ b',' ∷ rest) ≡ some (v, rest)
strtok-token [] rest h lt = absurd (omega arith)
strtok-token (c ∷ v) rest h lt =
    strtok_step c (v ++ b',' ∷ rest) (no_comma c v h) ∙ ap some (token_comma [] (c ∷ v) rest h)

strtok-last : (v : Text) → lacks ends v ≡ true → 0 < length v → strtok v ≡ some (v, [])
strtok-last [] h lt = absurd (omega arith)
strtok-last (c ∷ v) h lt = strtok_step c v (no_comma c v h) ∙ ap some (token_end [] (c ∷ v) h)

is_end : (c : ℕ) → (c == b'\n') ≡ true → ends c ≡ true
unfolding ends
is_end c h = ground arith

no_lines : (v : Text) → lacks ends v ≡ true → lacks (λ c. c == b'\n') v ≡ true
no_lines v h = lacks-weaken ends (λ c. c == b'\n') v is_end h

comma_line :
    (v : Text) → lacks (λ c. c == b'\n') v ≡ true → lacks (λ c. c == b'\n') (b',' ∷ v) ≡ true
unfolding lacks
comma_line v h = h

module _ (md5 : Text → Text) where
  unfoldable pub hash_of : Option Text → Option Text
  hash_of none = none
  hash_of (some passwd) = some (md5 passwd)

  line_of : Account → Text
  line_of a = a.user ++ b',' ∷ a.passwd

  line_loop :
      (user : Text) (a : Account) (ls : List Text)
      → lacks ends a.user ≡ true
      → 0 < length a.user
      → lacks ends a.passwd ≡ true
      → 0 < length a.passwd
      → account_loop md5 user ((line_of a ++ b'\n' ∷ []) ∷ ls)
        ≡ (if same user a.user then some (md5 a.passwd) else account_loop md5 user ls)
  unfolding account_loop line_of
  line_loop user a ls hu lu hp lp =
      let l = length-append (a.user ++ b',' ∷ a.passwd) (b'\n' ∷ []) in
      let m = length-append a.user (b',' ∷ a.passwd) in
      let long : leb (length ((a.user ++ b',' ∷ a.passwd) ++ b'\n' ∷ [])) 1 ≡ false =
        ground arith in
      elim (Bool-cases (same user a.user)) [
        | inl e ↦ rw (
          long,
          account_loop,
          drop_last-append (a.user ++ b',' ∷ a.passwd) b'\n',
          strtok-token a.user a.passwd hu lu,
          e,
          strtok-last a.passwd hp lp,
        )
        | inr e ↦ rw (
          long,
          account_loop,
          drop_last-append (a.user ++ b',' ∷ a.passwd) b'\n',
          strtok-token a.user a.passwd hu lu,
          e,
        )
      ]

  file_lines :
      (a : Account) (rest : Text)
      → lacks ends a.user ≡ true
      → lacks ends a.passwd ≡ true
      → lines [] (a.user ++ b',' ∷ (a.passwd ++ b'\n' ∷ rest))
        ≡ (line_of a ++ b'\n' ∷ []) ∷ lines [] rest
  unfolding line_of
  file_lines a rest hu hp =
      ap (lines []) (sym (append_assoc a.user (b',' ∷ a.passwd) (b'\n' ∷ rest)))
      ∙ lines_from [] (a.user ++ b',' ∷ a.passwd) rest (
          lacks-append (λ c. c == b'\n') a.user (b',' ∷ a.passwd) (no_lines a.user hu)
            (comma_line a.passwd (no_lines a.passwd hp)))

  loop_accounts :
      (user : Text) (accounts : List Account)
      → AreAccounts accounts
      → account_loop md5 user (lines [] (put_accounts accounts)) ≡ hash_of (passwd_of user accounts)
  unfolding put_accounts passwd_of hash_of lines account_loop
  loop_accounts user [] h = refl
  loop_accounts user (a ∷ accounts) (hu, lu, hp, lp, h) =
      ap (account_loop md5 user) (file_lines a (put_accounts accounts) hu hp)
      ∙ line_loop user a (lines [] (put_accounts accounts)) hu lu hp lp
      ∙ elim (Bool-cases (same user a.user)) [
        | inl e ↦ rw e
        | inr e ↦ rw e (loop_accounts user accounts h)
      ]

  -- From an account file with a line `user,password` for each account, the fields without commas
  -- and not empty, `get_account_info` gives the hash of the password of the first account
  -- with that name, and fails when there is none.
  pub get_account_info-passwd_of :
      (user : Text) (accounts : List Account)
      → AreAccounts accounts
      → get_account_info md5 (some (put_accounts accounts)) user ≡ hash_of (passwd_of user accounts)
  unfolding get_account_info
  get_account_info-passwd_of user accounts h = loop_accounts user accounts h
