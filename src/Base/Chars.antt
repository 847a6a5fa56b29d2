-- ===== src/Base/Chars.antt =====
-- Texts as lists of bytes, and the calls of the C++ library on them: find, substr, stoi, to_string.
use candy.Base.Tests.{if◌then◌else◌, ltb, leb, ◌==◌}
use candy.Base.Lists.{All, length, drop}
use candy.Base.Int.{ℤ, pos, negsuc}
use Prim.Native.Nat.{ℕ, zero, suc, ◌+◌, ◌-◌, ◌*◌, ◌/◌, ◌%◌}
use mathlib.Core.Path.{◌≡◌, refl}
use mathlib.Core.Logic.{◌≢◌}
use mathlib.Core.Bool.{Bool, false, ◌&&◌, ◌||◌}
use mathlib.Core.Option.{Option, none, some}
use mathlib.Core.Option
use mathlib.Core.List.{List, [], ◌∷◌, ◌++◌}
use native.Mathlib.Omega.{arith}

-- std::string::find of one character; `none` is npos.
unfoldable pub find_char : ℕ → List ℕ → Option ℕ
find_char c [] = none
find_char c (x ∷ xs) = if x == c then some 0 else Option.map suc (find_char c xs)

abbrev pub Lacks : ℕ → List ℕ → Type 0
Lacks c = All (λ x. x ≢ c)

pub find_char-append :
    (c : ℕ) (xs ys : List ℕ) → Lacks c xs → find_char c (xs ++ c ∷ ys) ≡ some (length xs)
unfolding find_char
find_char-append c [] ys h = ground arith
find_char-append c (x ∷ xs) ys h = ground (arith, h.0, find_char-append c xs ys h.1)

pub drop-append_cons :
    (xs : List ℕ) (c : ℕ) (ys : List ℕ) → drop (suc (length xs)) (xs ++ c ∷ ys) ≡ ys
drop-append_cons [] c ys = refl
drop-append_cons (x ∷ xs) c ys = drop-append_cons xs c ys

pub find_char-Lacks : (c : ℕ) (xs : List ℕ) → Lacks c xs → find_char c xs ≡ none
unfolding find_char
find_char-Lacks c [] h = refl
find_char-Lacks c (x ∷ xs) h = ground (arith, h.0, find_char-Lacks c xs h.1)

abbrev pub is_digit : ℕ → Bool
is_digit c = leb b'0' c && leb c b'9'

abbrev pub is_space : ℕ → Bool
is_space c = c == 32 || (leb 9 c && leb c 13)

unfoldable pub skip_spaces : List ℕ → List ℕ
skip_spaces [] = []
skip_spaces (c ∷ s) = if is_space c then skip_spaces s else c ∷ s

unfoldable pub read_digits : ℕ → List ℕ → ℕ
read_digits acc [] = acc
read_digits acc (c ∷ s) =
    let rest = read_digits (acc * 10 + (c - b'0')) s in if is_digit c then rest else acc

abbrev starts_with_digit : List ℕ → Bool
starts_with_digit [] = false
starts_with_digit (c ∷ s) = is_digit c

-- The digits after the sign: no digit and a value out of range of int throw.
abbrev pub stoi_positive : List ℕ → Option ℤ
stoi_positive s =
    if starts_with_digit s
    then if leb (read_digits 0 s) 2147483647 then some (pos (read_digits 0 s)) else none
    else none

abbrev negated : ℕ → ℤ
negated zero = pos 0
negated (suc n) = negsuc n

abbrev pub stoi_negative : List ℕ → Option ℤ
stoi_negative s =
    if starts_with_digit s
    then if leb (read_digits 0 s) 2147483648 then some (negated (read_digits 0 s)) else none
    else none

abbrev pub stoi_signed : List ℕ → Option ℤ
stoi_signed [] = none
stoi_signed (c ∷ s) =
    if c == b'-'
    then stoi_negative s
    else if c == b'+'
    then stoi_positive s
    else stoi_positive (c ∷ s)

-- std::stoi in base 10; `none` is an exception.
unfoldable pub stoi : List ℕ → Option ℤ
unfolding skip_spaces read_digits
stoi s = stoi_signed (skip_spaces s)

-- std::to_string of a number of at most `fuel` digits.
unfoldable pub decimal : ℕ → ℕ → List ℕ
decimal zero n = []
decimal (suc fuel) n =
    let rest = decimal fuel (n / 10) in
    if ltb n 10 then (b'0' + n) ∷ [] else rest ++ (b'0' + n % 10) ∷ []

-- Ten digits are enough for an int.
unfoldable pub to_string : ℕ → List ℕ
unfolding decimal
to_string n = decimal 10 n

abbrev pub slash : ℕ
slash = b'/'
