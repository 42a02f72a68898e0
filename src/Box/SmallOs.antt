-- ===== src/Box/SmallOs.antt =====
-- An operating system with files and directories in one table, for the examples. A path is a name:
-- something is made only where its `folder` is a directory that can be used.
use sp.Prelude.{
  ◌/◌, ◌==◌, ◌&&◌, Bool, true, inl, inr, Bool-cases, ℕ, ◌≡◌, ◌∙◌, refl, sym, ap, [], Option, none,
  some, false, if◌then◌else◌, arith,
}
use sp.Loser.Text.{Text, same}
use sp.Loser.Text.Laws.{same_refl}
use sp.Box.Sync.{Stat, Os}
use sp.Box.Sync.Mirrors.{IsPosix}
use sp.Box.Client.Folders.{folder, is_usable, IsFramed, Leaves, MakesFiles}

pub record Node : Type 0 where
  pub stat : Stat
  pub content : Text

abbrev pub Tree : Type 0
Tree = Text → Option Node

abbrev pub with_stat : (Stat → Stat) → Option Node → Option Node
with_stat g none = none
with_stat g (some n) = some (record n { stat = g n.stat })

abbrev pub map_stat : (Stat → Stat) → Option Stat → Option Stat
map_stat g none = none
map_stat g (some s) = some (g s)

abbrev pub over : Tree → Text → (Stat → Stat) → Tree
over f p g q = if same q p then with_stat g (f q) else f q

abbrev pub put : Tree → Text → Option Node → Tree
put f p n q = if same q p then n else f q

abbrev pub stat_of : Option Node → Option Stat
stat_of none = none
stat_of (some n) = some n.stat

abbrev pub content_of : Option Node → Option Text
content_of none = none
content_of (some n) = some n.content

abbrev pub file_mode : ℕ
file_mode = 33188

abbrev pub dir_mode : ℕ
dir_mode = 16877

abbrev pub no_times : ℕ → Stat
no_times m = record { mode = m; atime = 0; mtime = 0 }

-- Something can be made in here.
abbrev pub is_open : Option Node → Bool
is_open none = false
is_open (some n) = (n.stat.mode / 4096 == 4) && is_usable n.stat.mode

abbrev pub if_absent : Tree → Text → Node → Option Node → Tree
if_absent f p n none = put f p (some n)
if_absent f p n (some _) = f

abbrev pub new_file : Text → Node
new_file w = record { stat = no_times file_mode; content = w }

abbrev pub new_dir : Node
new_dir = record { stat = no_times dir_mode; content = [] }

-- Reading sets the time of the last access.
abbrev pub read_node : Tree → Text → Option Node → Option (Text × Tree)
read_node f p none = none
read_node f p (some n) = some (n.content, over f p (λ s. record s { atime = 9 }))

abbrev pub small_os : Os Tree
small_os = record {
  lstat = λ f p. stat_of (f p);
  chmod = λ f p m. over f p (λ s. record s { mode = m });
  utime = λ f p a m. over f p (λ s. record s { atime = a; mtime = m });
  read = λ f p. read_node f p (f p);
  mkdir = λ f p. if is_open (f (folder p)) then if_absent f p new_dir (f p) else f;
  create = λ f p w. if is_open (f (folder p)) then some (put f p (some (new_file w))) else none;
  rmdir = λ f p. put f p none;
  unlink = λ f p. put f p none;
}

abbrev pub held : Tree → Text → Option Text
held f p = content_of (f p)

over_content : (f : Tree) (p : Text) (g : Stat → Stat) → held (over f p g) p ≡ held f p
over_content f p g = rw (same_refl p) (kept (f p))
  where
    kept : (o : Option Node) → content_of (with_stat g o) ≡ content_of o
    kept none = refl
    kept (some n) = refl

over_stat :
    (f : Tree) (p : Text) (g : Stat → Stat) (s : Stat)
    → stat_of (f p) ≡ some s
    → stat_of (over f p g p) ≡ some (g s)
over_stat f p g s e = rw (same_refl p) (mapped (f p) ∙ ap (map_stat g) e)
  where
    mapped : (o : Option Node) → stat_of (with_stat g o) ≡ map_stat g (stat_of o)
    mapped none = refl
    mapped (some n) = refl

made :
    (f f' : Tree) (p w : Text) → small_os.create f p w ≡ some f' → put f p (some (new_file w)) ≡ f'
made f f' p w e = elim (Bool-cases (is_open (f (folder p)))) [
  | inl o ↦ let e' = rw o at e in cc
  | inr o ↦ let e' = rw o at e in absurd (cc)
]

made_at : (f f' : Tree) (p w : Text) → small_os.create f p w ≡ some f' → f' p ≡ some (new_file w)
made_at f f' p w e = ap (λ (g : Tree). g p) (sym (made f f' p w e)) ∙ rw (same_refl p)

read_over :
    (f f' : Tree) (p t : Text)
    → small_os.read f p ≡ some (t, f')
    → over f p (λ s. record s { atime = 9 }) ≡ f'
read_over f f' p t e = by_node (f p) e
  where
    by_node :
        (o : Option Node)
        → read_node f p o ≡ some (t, f')
        → over f p (λ s. record s { atime = 9 }) ≡ f'
    by_node none h = absurd (cc)
    by_node (some n) h = cc

pub small_os-IsPosix : IsPosix small_os held
small_os-IsPosix = record {
  create-content = λ f f' p w e. ap content_of (made_at f f' p w e);
  create-stat =
      λ f f' p w absent e. (no_times file_mode, ap stat_of (made_at f f' p w e), omega arith);
  chmod-content = λ f p m. over_content f p (λ s. record s { mode = m });
  chmod-stat = λ f p m s e l t. over_stat f p (λ s. record s { mode = m }) s e;
  utime-content = λ f p a m. over_content f p (λ s. record s { atime = a; mtime = m });
  utime-stat = λ f p a m s e l. over_stat f p (λ s. record s { atime = a; mtime = m }) s e;
  read-content = λ f f' p t e.
      ap (λ (g : Tree). held g p) (sym (read_over f f' p t e))
      ∙ over_content f p (λ s. record s { atime = 9 });
  read-stat = λ f f' p t s e h. (
    9,
    ap (λ (g : Tree). stat_of (g p)) (sym (read_over f f' p t e))
        ∙ over_stat f p (λ s. record s { atime = 9 }) s h,
  );
}

-- Paths that are spelled differently.
abbrev pub Apart : Text → Text → Type 0
Apart p q = same q p ≡ false

untouched : (f f' : Tree) (q : Text) → f' q ≡ f q → Leaves small_os held f f' q
untouched f f' q e = record {
  absent_lem = λ h. ap stat_of e ∙ h;
  mode_lem = λ s h. (s, ap stat_of e ∙ h, refl);
  stat_lem = λ s h r. ap stat_of e ∙ h;
  content_lem = λ s h r. ap content_of e;
}

put_other : (f : Tree) (p q : Text) (n : Option Node) → Apart p q → put f p n q ≡ f q
put_other f p q n a = rw a

over_other : (f : Tree) (p q : Text) (g : Stat → Stat) → Apart p q → over f p g q ≡ f q
over_other f p q g a = rw a

created_other :
    (f f' : Tree) (p w q : Text) → Apart p q → small_os.create f p w ≡ some f' → f' q ≡ f q
created_other f f' p w q a e =
    ap (λ (g : Tree). g q) (sym (made f f' p w e)) ∙ put_other f p q (some (new_file w)) a

mkdir_other : (f : Tree) (p q : Text) → Apart p q → small_os.mkdir f p q ≡ f q
mkdir_other f p q a = elim (Bool-cases (is_open (f (folder p)))) [
  | inl o ↦ rw o (by_node (f p))
  | inr o ↦ rw o
]
  where
    by_node : (n : Option Node) → if_absent f p new_dir n q ≡ f q
    by_node none = put_other f p q (some new_dir) a
    by_node (some _) = refl

opened :
    (o : Option Node) (s : Stat)
    → stat_of o ≡ some s
    → s.mode / 4096 ≡ 4
    → is_usable s.mode ≡ true
    → is_open o ≡ true
opened none s e d u = absurd (cc)
opened (some n) s e d u =
    let same_stat : n.stat ≡ s = cc in
    let m : n.stat.mode ≡ s.mode = ap (λ (t : Stat). t.mode) same_stat in rw m (ground arith)

gone : (o : Option Node) → stat_of o ≡ none → o ≡ none
gone none e = refl
gone (some n) e = absurd (cc)

pub small_os-MakesFiles : MakesFiles small_os
small_os-MakesFiles = record {
  create-some = λ f p w (s, e, d, u) absent.
      (put f p (some (new_file w)), rw (opened (f (folder p)) s e d u));
  mkdir-stat = λ f p (s, e, d, u) absent. (
    no_times dir_mode,
    rw (opened (f (folder p)) s e d u, gone (f p) absent, same_refl p),
    omega arith,
  );
}

pub small_os-IsFramed : IsFramed small_os held Apart
small_os-IsFramed = record {
  create-Leaves = λ f f' p w q a e. untouched f f' q (created_other f f' p w q a e);
  mkdir-Leaves = λ f p q a. untouched f _ q (mkdir_other f p q a);
  chmod-Leaves = λ f p m q a _. untouched f _ q (over_other f p q (λ s. record s { mode = m }) a);
  utime-Leaves =
      λ f p a m q h. untouched f _ q (over_other f p q (λ s. record s { atime = a; mtime = m }) h);
}
