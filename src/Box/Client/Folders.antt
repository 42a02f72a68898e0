-- ===== src/Box/Client/Folders.antt =====
-- MP5/src/csiebox_server.c: what the calls of the operating system do at other paths than their own,
-- and in which directories they can make something.
use sp.Prelude.{
  ℕ, ◌/◌, ◌%◌, ◌≡◌, refl, ap, ◌∙◌, ◌⊎◌, [], ◌∷◌, Option, none, some, Bool, true, false, ◌&&◌, ◌||◌,
  ◌==◌, if◌then◌else◌,
}
use sp.Loser.Text.{Text}
use sp.Box.Sync.{Stat, Os}

unfoldable pub has_slash : Text → Bool
has_slash [] = false
has_slash (c ∷ cs) = (c == b'/') || has_slash cs

-- A path in front of its last slash.
unfoldable pub folder : Text → Text
unfolding has_slash
folder [] = []
folder (c ∷ cs) = let rest = folder cs in if has_slash cs then c ∷ rest else []

-- Its owner may write into a directory of this mode and go through it.
unfoldable pub is_usable : ℕ → Bool
is_usable mode = (mode / 128 % 2 == 1) && (mode / 64 % 2 == 1)

-- From one state of the files to another: nothing comes to be at a path, what is there keeps its
-- mode, and a regular file stays as it is.
pub record Leaves {F : Type 0} (os : Os F) (content : F → Text → Option Text) (f f' : F) (q : Text)
    : Type 0 where
  pub absent_lem : os.lstat f q ≡ none → os.lstat f' q ≡ none
  pub mode_lem :
      (s : Stat) → os.lstat f q ≡ some s → (t : Stat) × (os.lstat f' q ≡ some t) × (t.mode ≡ s.mode)
  pub stat_lem : (s : Stat) → os.lstat f q ≡ some s → s.mode / 4096 ≡ 8 → os.lstat f' q ≡ some s
  pub content_lem :
      (s : Stat) → os.lstat f q ≡ some s → s.mode / 4096 ≡ 8 → content f' q ≡ content f q

module _ {F : Type 0} (os : Os F) where
  -- A directory is there that its owner, the server, can use.
  abbrev pub Usable : F → Text → Type 0
  Usable f p =
      (s : Stat) × (os.lstat f p ≡ some s) × (s.mode / 4096 ≡ 4) × (is_usable s.mode ≡ true)

-- A call on one path leaves another alone, where `Apart` says that they name different files. A mode
-- that would close a directory is another matter: it would hide what is in there.
pub record IsFramed {F : Type 0} (os : Os F) (content : F → Text → Option Text)
    (Apart : Text → Text → Type 0) : Type 0 where
  pub create-Leaves :
      (f f' : F) (p w q : Text) → Apart p q → os.create f p w ≡ some f' → Leaves os content f f' q
  pub mkdir-Leaves : (f : F) (p q : Text) → Apart p q → Leaves os content f (os.mkdir f p) q
  pub chmod-Leaves :
      (f : F) (p : Text) (m : ℕ) (q : Text)
      → Apart p q
      → ((s : Stat) × (os.lstat f p ≡ some s) × (s.mode / 4096 ≡ 8)) ⊎ (is_usable m ≡ true)
      → Leaves os content f (os.chmod f p m) q
  pub utime-Leaves :
      (f : F) (p : Text) (a m : ℕ) (q : Text) → Apart p q → Leaves os content f (os.utime f p a m) q

-- Where nothing is, a file or a directory can be made if the directory of the path can be used, and
-- the disk is not full. Without that directory nothing is promised.
pub record MakesFiles {F : Type 0} (os : Os F) : Type 0 where
  pub create-some :
      (f : F) (p w : Text)
      → Usable os f (folder p)
      → os.lstat f p ≡ none
      → (f' : F) × (os.create f p w ≡ some f')
  pub mkdir-stat :
      (f : F) (p : Text)
      → Usable os f (folder p)
      → os.lstat f p ≡ none
      → (s : Stat) × (os.lstat (os.mkdir f p) p ≡ some s) × (s.mode / 4096 ≡ 4)

module _ {F : Type 0} {os : Os F} {content : F → Text → Option Text} where
  pub Leaves-trans :
      (f g h : F) (q : Text)
      → Leaves os content f g q
      → Leaves os content g h q
      → Leaves os content f h q
  Leaves-trans f g h q a b = record {
    absent_lem = λ e. b.absent_lem (a.absent_lem e);
    mode_lem = λ s e.
        let (t, et, mt) = a.mode_lem s e in let (u, eu, mu) = b.mode_lem t et in (u, eu, mu ∙ mt);
    stat_lem = λ s e r. b.stat_lem s (a.stat_lem s e r) r;
    content_lem = λ s e r. b.content_lem s (a.stat_lem s e r) r ∙ a.content_lem s e r;
  }

  pub Leaves-refl : (f : F) (q : Text) → Leaves os content f f q
  Leaves-refl f q = record {
    absent_lem = λ e. e;
    mode_lem = λ s e. (s, e, refl);
    stat_lem = λ s e r. e;
    content_lem = λ s e r. refl;
  }

  -- A directory that can be used stays one.
  pub Usable-Leaves : (f g : F) (q : Text) → Leaves os content f g q → Usable os f q → Usable os g q
  Usable-Leaves f g q l (s, e, d, u) =
      let (t, et, mt) = l.mode_lem s e in (t, et, ap (λ m. m / 4096) mt ∙ d, ap is_usable mt ∙ u)
