-- ===== src/Box/Client/Relative.antt =====
-- MP5/src/csiebox_client.c: what `convert_to_relative_path` gives.
use sp.Prelude.{
  ℕ, zero, suc, ◌+◌, ◌≤◌, ◌<◌, ◌≡◌, ◌≢◌, refl, sym, ap, ◌∙◌, ◌⊎◌, inl, inr, [], ◌∷◌, ◌++◌, none,
  some, true, false, ◌==◌, ltb, if◌then◌else◌, arith, length, length-append, get_or, set, take,
  length-set, get_or-set, append_assoc, Bool-cases,
}
use sp.Loser.Text.{Text, same}
use sp.Loser.Text.Laws.{same_refl, get_or-front, get_or_at}
use sp.Box.Client.Paths.{string_in, shift_loop, full_path, convert_to_relative_path}

-- A text without a zero byte.
pub data Whole : Text → Type 0 where
  no_byte : Whole []
  one_byte : {c : ℕ} {cs : Text} → c ≢ 0 → Whole cs → Whole (c ∷ cs)

written : (ret : Text) (i v : ℕ) → i < length ret → get_or (set ret i v) i 0 ≡ v
written ret i v l = ground (arith, get_or-set ret i i v 0 l)

untouched :
    (ret : Text) (i k v : ℕ) → i < length ret → k ≢ i → get_or (set ret i v) k 0 ≡ get_or ret k 0
untouched ret i k v l ne = ground (arith, get_or-set ret i k v 0 l)

length-shift_loop :
    (rootlen i left : ℕ) (ret : Text) → length (shift_loop rootlen i left ret) ≡ length ret
unfolding shift_loop
length-shift_loop rootlen i zero ret = refl
length-shift_loop rootlen i (suc left) ret =
    length-shift_loop rootlen (i + 1) left _ ∙ length-set ret i _

-- A place that the loop has passed keeps its byte.
shift_before :
    (rootlen i left : ℕ) (ret : Text) (k : ℕ)
    → k < i
    → i + left ≤ length ret
    → get_or (shift_loop rootlen i left ret) k 0 ≡ get_or ret k 0
unfolding shift_loop
shift_before rootlen i zero ret k h l = refl
shift_before rootlen i (suc left) ret k h l =
    shift_before rootlen (i + 1) left _ k (omega arith) (
      omega
        (arith, length-set {A = ℕ} ret i (if ltb i rootlen then get_or ret (i + rootlen) 0 else 0)))
    ∙ untouched ret i k _ (omega arith) (omega arith)

-- A place in front of the loop: below the root's length it takes the byte that stands that length
-- further, from there on it is cleared.
shift_at :
    (rootlen i left : ℕ) (ret : Text) (k : ℕ)
    → i ≤ k
    → k < i + left
    → i + left ≤ length ret
    → get_or (shift_loop rootlen i left ret) k 0
      ≡ (if ltb k rootlen then get_or ret (k + rootlen) 0 else 0)
unfolding shift_loop
shift_at rootlen i zero ret k h m l = absurd (omega arith)
shift_at rootlen i (suc left) ret k h m l =
    let v = (if ltb i rootlen then get_or ret (i + rootlen) 0 else 0) in
    let long : i + 1 + left ≤ length (set ret i v) = omega (arith, length-set {A = ℕ} ret i v) in
    elim (Bool-cases (i == k)) [
      | inl e ↦
          let same_place : k ≡ i = ground arith in
          rw same_place (
            shift_before rootlen (i + 1) left (set ret i v) i (omega arith) long
            ∙ written ret i v (omega arith))
      | inr e ↦
          shift_at rootlen (i + 1) left (set ret i v) k (ground arith) (omega arith) long
          ∙ ap (λ b. if ltb k rootlen then b else 0)
              (untouched ret i (k + rootlen) v (omega arith) (ground arith))
    ]

-- A string is found by its bytes up to its end.
string_in_lem :
    (t buffer : Text)
    → Whole t
    → ((k : ℕ) → k < length t → get_or buffer k 0 ≡ get_or t k 0)
    → get_or buffer (length t) 0 ≡ 0
    → string_in buffer ≡ t
unfolding string_in
string_in_lem [] [] w h e = refl
string_in_lem [] (c ∷ cs) w h e = ground (arith, e)
string_in_lem (x ∷ t) [] (one_byte ne w) h e = absurd (omega (arith, h 0 (omega arith), ne))
string_in_lem (x ∷ t) (c ∷ cs) (one_byte ne w) h e =
    let here : c ≡ x = h 0 (omega arith) in
    let rest : string_in cs ≡ t = string_in_lem t cs w (λ k l. h (suc k) (omega arith)) e in
    ground (arith, here, rest, ne)

Whole-take : (n : ℕ) (t : Text) → Whole t → Whole (take n t)
Whole-take zero t w = no_byte
Whole-take (suc n) [] w = no_byte
Whole-take (suc n) (c ∷ t) (one_byte ne w) = one_byte ne (Whole-take n t w)

take_get : (n : ℕ) (t : Text) (k : ℕ) → k < n → get_or (take n t) k 0 ≡ get_or t k 0
take_get zero t k l = absurd (omega arith)
take_get (suc n) [] k l = refl
take_get (suc n) (c ∷ t) zero l = refl
take_get (suc n) (c ∷ t) (suc k) l = take_get n t k (omega arith)

length-take_le : (n : ℕ) (t : Text) → length (take n t) ≤ n
length-take_le zero t = omega arith
length-take_le (suc n) [] = omega arith
length-take_le (suc n) (c ∷ t) = omega (arith, length-take_le n t)

length-take_le_self : (n : ℕ) (t : Text) → length (take n t) ≤ length t
length-take_le_self zero t = omega arith
length-take_le_self (suc n) [] = omega arith
length-take_le_self (suc n) (c ∷ t) = omega (arith, length-take_le_self n t)

length-take_short : (n : ℕ) (t : Text) → (length (take n t) ≡ n) ⊎ (length (take n t) ≡ length t)
length-take_short zero t = inl refl
length-take_short (suc n) [] = inr refl
length-take_short (suc n) (c ∷ t) = ground (arith, length-take_short n t)

take-front : (a b : Text) → take (length a) (a ++ b) ≡ a
take-front [] b = refl
take-front (x ∷ a) b = ap (λ t. x ∷ t) (take-front a b)

get_or_skip : (a b : Text) (k : ℕ) → get_or (a ++ b) (length a + k) 0 ≡ get_or b k 0
get_or_skip [] b k = let e : 0 + k ≡ k = omega arith in rw e
get_or_skip (x ∷ a) b k =
    let e : suc (length a) + k ≡ suc (length a + k) = omega arith in rw e (get_or_skip a b k)

module _ (root rel junk : Text) where
  abbrev buffer : Text
  buffer = (root ++ rel) ++ 0 ∷ junk

  abbrev final : Text
  final = shift_loop (length root) 0 (length (root ++ rel)) buffer

  in_buffer : (k : ℕ) → get_or buffer (k + length root) 0 ≡ get_or (rel ++ 0 ∷ junk) k 0
  in_buffer k =
      let e : k + length root ≡ length root + k = omega arith in
      rw (e, append_assoc root rel (0 ∷ junk)) (get_or_skip root (rel ++ 0 ∷ junk) k)

  room : 0 + length (root ++ rel) ≤ length buffer
  room = omega (arith, length-append (root ++ rel) (0 ∷ junk))

  -- Below both lengths the string is the path behind the root.
  shifted : (k : ℕ) → k < length root → k < length rel → get_or final k 0 ≡ get_or rel k 0
  shifted k l r =
      let t : ltb k (length root) ≡ true = ground arith in
      shift_at (length root) 0 (length (root ++ rel)) buffer k (omega arith)
        (omega (arith, length-append root rel)) room
      ∙ rw t (in_buffer k ∙ get_or-front rel (0 ∷ junk) k r)

  -- It ends at the shorter of the two lengths.
  ended_short : length rel < length root → get_or final (length rel) 0 ≡ 0
  ended_short l =
      let t : ltb (length rel) (length root) ≡ true = ground arith in
      shift_at (length root) 0 (length (root ++ rel)) buffer (length rel) (omega arith)
        (omega (arith, length-append root rel)) room
      ∙ rw t (in_buffer (length rel) ∙ get_or_at rel junk 0)

  ended_long : length root ≤ length rel → 1 ≤ length rel → get_or final (length root) 0 ≡ 0
  ended_long l some_left =
      let t : ltb (length root) (length root) ≡ false = ground arith in
      shift_at (length root) 0 (length (root ++ rel)) buffer (length root) (omega arith)
        (omega (arith, length-append root rel)) room
      ∙ rw t

  string_final : 1 ≤ length root → Whole rel → string_in final ≡ take (length root) rel
  string_final some_root w =
      string_in_lem (take (length root) rel) final (Whole-take (length root) rel w)
        (λ k l.
          shifted k (omega (arith, length-take_le (length root) rel))
            (omega (arith, length-take_le (length root) rel, length-take_le_self (length root) rel))
          ∙ sym (take_get (length root) rel k (omega (arith, length-take_le (length root) rel))))
        (ends (length-take_short (length root) rel))
    where
      ends :
          (length (take (length root) rel) ≡ length root)
            ⊎ (length (take (length root) rel) ≡ length rel)
          → get_or final (length (take (length root) rel)) 0 ≡ 0
      ends (inl e) = rw e (
          ended_long (omega (arith, length-take_le_self (length root) rel))
            (omega (arith, length-take_le_self (length root) rel)))
      ends (inr e) = elim (Bool-cases (ltb (length rel) (length root))) [
        | inl l ↦ rw e (ended_short (ground arith))
        | inr g ↦
            let same_length : length rel ≡ length root =
              ground (arith, length-take_le (length root) rel) in
            rw (e, same_length) (ended_long (omega arith) (omega arith))
      ]

-- A path below the root, as the program uses it: the part behind the root comes out, cut to as
-- many characters as the root has.
pub convert_to_relative_path-take :
    (root rel cwd path junk : Text)
    → full_path cwd path ≡ root ++ rel
    → 1 ≤ length root
    → Whole rel
    → convert_to_relative_path root cwd path junk ≡ some (take (length root) rel)
unfolding convert_to_relative_path
convert_to_relative_path-take root rel cwd path junk e some_root w =
    rw (e, take-front root rel, same_refl root) (ap some (string_final root rel junk some_root w))

-- A path that does not begin with the root is none.
pub convert_to_relative_path-outside :
    (root cwd path junk : Text)
    → same (take (length root) (full_path cwd path)) root ≡ false
    → convert_to_relative_path root cwd path junk ≡ none
unfolding convert_to_relative_path
convert_to_relative_path-outside root cwd path junk h = rw h
