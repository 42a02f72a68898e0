-- ===== src/Loser/Text.antt =====
-- MP1/main.c: strings, and what `strcmp`, `fscanf` and `printf` do with them. A text is the list
-- of its bytes; the C library is modelled as far as the program uses it.
pub mod Laws
use Prim.Native.Char.{code}
use Prim.Native.String.{String}
use Prim.Native.Nat.{compare, Ordering}
use sp.Prelude.{
  ℕ, zero, suc, ◌+◌, ◌-◌, ◌*◌, ◌/◌, ◌%◌, List, [], ◌∷◌, ◌++◌, Option, none, some, Bool, true, false,
  ◌&&◌, ◌||◌, ◌==◌, leb, ltb, if◌then◌else◌, get_or,
}

abbrev pub Text : Type 0
Text = List ℕ

abbrev pub codes : String → Text
codes String.[] = []
codes (String.◌∷◌ c s) = code c ∷ codes s

unfoldable pub strcmp : Text → Text → Ordering
strcmp [] [] = Ordering.eq
strcmp [] (y ∷ ys) = Ordering.lt
strcmp (x ∷ xs) [] = Ordering.gt
strcmp (x ∷ xs) (y ∷ ys) = elim (compare x y) [
  | Ordering.eq ↦ strcmp xs ys
  | Ordering.lt ↦ Ordering.lt
  | Ordering.gt ↦ Ordering.gt
]

-- `strcmp(a, b) == 0`
unfoldable pub same : Text → Text → Bool
unfolding strcmp
same a b = elim (strcmp a b) [ Ordering.eq ↦ true | _ ↦ false ]

unfoldable pub is_space : ℕ → Bool
is_space c = (c == 32) || (leb 9 c && leb c 13)

-- A word ends at white space; the empty word is none.
unfoldable pub flush : Text → List Text → List Text
flush [] ws = ws
flush (c ∷ cs) ws = (c ∷ cs) ∷ ws

-- What reading with `%s` to the end gives, after the letters `w` of a word.
unfoldable pub words : Text → Text → List Text
unfolding flush is_space
words w [] = flush w []
words w (c ∷ cs) =
    let rest = words (if is_space c then [] else w ++ c ∷ []) cs in
    if is_space c then flush w rest else rest

unfoldable pub is_digit : ℕ → Bool
is_digit c = leb b'0' c && leb c b'9'

-- The digits that follow, as `%d` adds them up.
unfoldable pub value : ℕ → Text → ℕ
unfolding is_digit
value n [] = n
value n (c ∷ cs) = let more = value (n * 10 + (c - b'0')) cs in if is_digit c then more else n

-- `%d` at a number without a sign; a negative one is nothing that the program writes.
unfoldable pub scan_int : Text → Option ℕ
unfolding value is_digit is_space
scan_int [] = none
scan_int (c ∷ cs) =
    let later = scan_int cs in
    if is_space c then later else if is_digit c then some (value 0 (c ∷ cs)) else none

-- `printf("%d", n)`; `fuel` is above the number.
unfoldable pub digits : ℕ → ℕ → Text
digits zero n = []
digits (suc fuel) n =
    let front = digits fuel (n / 10) in (if ltb n 10 then [] else front) ++ (b'0' + n % 10) ∷ []

unfoldable pub put_int : ℕ → Text
unfolding digits
put_int n = digits (suc n) n

-- The last `c` in the text at or before the position `p`, found by reading backwards.
unfoldable pub find_back : ℕ → Text → ℕ → Option ℕ
find_back c text zero = if get_or text 0 0 == c then some 0 else none
find_back c text (suc p) =
    let earlier = find_back c text p in if get_or text (suc p) 0 == c then some (suc p) else earlier
