-- ===== src/Base/Text.antt =====
-- Go strings as the lists of their bytes, and what the program uses of the package `strings` and of
-- `strconv.Atoi`. White space is that of Unicode, in UTF-8.
use Prim.Native.Char.{code}
use Prim.Native.String.{String}
use Prim.Native.Nat.{ℕ, zero, suc, ◌+◌, ◌-◌, ◌*◌}
use mathlib.Core.Path.{◌≡◌, refl}
use mathlib.Core.Logic.{◌↔◌}
use mathlib.Core.Bool.{Bool, true, false, not, ◌&&◌, ◌||◌}
use mathlib.Core.Option.{Option, none, some}
use mathlib.Core.List.{List, [], ◌∷◌, ◌++◌, map, reverse}
use native.Mathlib.Omega.{arith}
use edge_pilot.Base.Tests.{ltb, leb, ◌==◌, if◌then◌else◌}
use edge_pilot.Base.Int.{ℤ, pos, negsuc}

abbrev pub Text : Type 0
Text = List ℕ

abbrev pub codes : String → Text
codes String.[] = []
codes (String.◌∷◌ c s) = code c ∷ codes s

unfoldable pub text_eq : Text → Text → Bool
text_eq [] [] = true
text_eq [] (y ∷ ys) = false
text_eq (x ∷ xs) [] = false
text_eq (x ∷ xs) (y ∷ ys) = (x == y) && text_eq xs ys

pub text_eq_self : (s : Text) → text_eq s s ≡ true
unfolding text_eq
text_eq_self [] = refl
text_eq_self (x ∷ xs) = ground (arith, text_eq_self xs)

pub text_eq→eq : (s t : Text) → text_eq s t ≡ true → s ≡ t
unfolding text_eq
text_eq→eq [] [] h = refl
text_eq→eq [] (y ∷ ys) h = cc
text_eq→eq (x ∷ xs) [] h = cc
text_eq→eq (x ∷ xs) (y ∷ ys) h = ground (arith, text_eq→eq xs ys)

pub text_eq_iff : (s t : Text) → (text_eq s t ≡ true) ↔ (s ≡ t)
text_eq_iff s t = (text_eq→eq s t, λ e. rw e (text_eq_self t))

unfoldable pub is_empty : Text → Bool
is_empty [] = true
is_empty (c ∷ s) = false

-- The white space of one byte, and that of two and of three bytes: U+0085, U+00A0, U+1680, U+2000 to U+200A, U+2028,
-- U+2029, U+202F, U+205F and U+3000.
unfoldable pub is_space : ℕ → Bool
is_space c = (leb 9 c && leb c 13) || (c == 32)

unfoldable pub is_space_of_two : ℕ → ℕ → Bool
is_space_of_two a b = (a == 0xc2) && ((b == 0x85) || (b == 0xa0))

unfoldable pub is_space_of_three : ℕ → ℕ → ℕ → Bool
is_space_of_three a b c =
    ((a == 0xe1) && (b == 0x9a) && (c == 0x80))
    || ((a == 0xe2)
        && (b == 0x80)
        && ((leb 0x80 c && leb c 0x8a) || (c == 0xa8) || (c == 0xa9) || (c == 0xaf)))
    || ((a == 0xe2) && (b == 0x81) && (c == 0x9f))
    || ((a == 0xe3) && (b == 0x80) && (c == 0x80))

-- The bytes of the white space that a text begins with; 0 where it begins with none.
unfoldable pub space_width : Text → ℕ
unfolding is_space is_space_of_two is_space_of_three
space_width [] = 0
space_width (a ∷ []) = if is_space a then 1 else 0
space_width (a ∷ b ∷ []) = if is_space a then 1 else if is_space_of_two a b then 2 else 0
space_width (a ∷ b ∷ c ∷ s) =
    if is_space a
    then 1
    else if is_space_of_two a b
    then 2
    else if is_space_of_three a b c
    then 3
    else 0

-- The same of a text that is read from its end.
unfoldable pub space_width_back : Text → ℕ
unfolding is_space is_space_of_two is_space_of_three
space_width_back [] = 0
space_width_back (a ∷ []) = if is_space a then 1 else 0
space_width_back (a ∷ b ∷ []) = if is_space a then 1 else if is_space_of_two b a then 2 else 0
space_width_back (a ∷ b ∷ c ∷ s) =
    if is_space a
    then 1
    else if is_space_of_two b a
    then 2
    else if is_space_of_three c b a
    then 3
    else 0

-- A text after `n` more bytes without the white space that follows, by the width of white space.
unfoldable pub trim_from : (Text → ℕ) → ℕ → Text → Text
trim_from width n [] = []
trim_from width (suc n) (c ∷ s) = trim_from width n s
trim_from width zero (c ∷ s) =
    let rest = trim_from width (width (c ∷ s) - 1) s in if width (c ∷ s) == 0 then c ∷ s else rest

-- `strings.TrimSpace`.
unfoldable pub trim_space : Text → Text
unfolding trim_from space_width space_width_back
trim_space s = reverse (trim_from space_width_back 0 (reverse (trim_from space_width 0 s)))

unfoldable pub ends_in_space : Text → Bool
unfolding space_width_back
ends_in_space s = not (space_width_back (reverse s) == 0)

-- `strings.Contains` of a text of one byte.
unfoldable pub contains : ℕ → Text → Bool
contains b [] = false
contains b (c ∷ s) = (c == b) || contains b s

abbrev pub cons_first : ℕ → List Text → List Text
cons_first c [] = (c ∷ []) ∷ []
cons_first c (w ∷ ws) = (c ∷ w) ∷ ws

-- `strings.Split` by a separator of one byte.
unfoldable pub split : ℕ → Text → List Text
split b [] = [] ∷ []
split b (c ∷ s) = let rest = split b s in if c == b then [] ∷ rest else cons_first c rest

-- The words of a text after `n` more bytes, the word before in the accumulator, its last byte first.
unfoldable pub fields_from : ℕ → Text → Text → List Text
fields_from n [] [] = []
fields_from n (x ∷ xs) [] = reverse (x ∷ xs) ∷ []
fields_from (suc n) word (c ∷ s) = fields_from n word s
fields_from zero word (c ∷ s) =
    let inside = fields_from 0 (c ∷ word) s in
    let outside = fields_from (space_width (c ∷ s) - 1) [] s in
    if space_width (c ∷ s) == 0
    then inside
    else if is_empty word
    then outside
    else reverse word ∷ outside

-- `strings.Fields`.
unfoldable pub fields : Text → List Text
unfolding fields_from space_width is_empty
fields s = fields_from 0 [] s

unfoldable pub upper : ℕ → ℕ
upper c = if leb b'a' c && leb c b'z' then c - 32 else c

-- `strings.ToUpper`.
unfoldable pub to_upper : Text → Text
unfolding upper
to_upper s = map upper s

-- `strings.Join` with a separator.
unfoldable pub join : ℕ → List Text → Text
join b [] = []
join b (w ∷ []) = w
join b (w ∷ v ∷ ws) = w ++ b ∷ join b (v ∷ ws)

unfoldable pub is_digit : ℕ → Bool
is_digit c = leb b'0' c && leb c b'9'

-- The value of a text of digits, read from `acc` on.
unfoldable pub digits_from : ℕ → Text → Option ℕ
digits_from acc [] = some acc
digits_from acc (c ∷ s) =
    let rest = digits_from (acc * 10 + (c - b'0')) s in if is_digit c then rest else none

unfoldable pub digits_value : Text → Option ℕ
unfolding digits_from is_digit
digits_value [] = none
digits_value (c ∷ s) = digits_from 0 (c ∷ s)

-- The range of `int` on a 64-bit machine.
abbrev pub int_limit : ℕ
int_limit = 9223372036854775808

unfoldable pub in_range : Bool → Option ℕ → Option ℤ
in_range negative none = none
in_range false (some n) = if ltb n int_limit then some (pos n) else none
in_range true (some zero) = some (pos 0)
in_range true (some (suc n)) = if ltb n int_limit then some (negsuc n) else none

-- `strconv.Atoi`: an optional sign and digits, refused out of the range of `int`.
unfoldable pub atoi : Text → Option ℤ
unfolding digits_value in_range
atoi [] = none
atoi (c ∷ s) =
    if c == b'-'
    then in_range true (digits_value s)
    else if c == b'+'
    then in_range false (digits_value s)
    else in_range false (digits_value (c ∷ s))
