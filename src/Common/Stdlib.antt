-- ===== src/Common/Stdlib.antt =====
-- `std::stoi` and `std::to_string` of the C++ library, at base 10 and at a 32-bit `int`. A text is
-- walked by its code points; `none` is an exception.
pub mod RoundTrip
use Prim.Native.Char.{code}
use Prim.Native.String.{◌++◌ as str_append}
use raspberrypiservice.Prelude.{
  ℕ, zero, suc, ◌+◌, ◌-◌, ◌*◌, ◌/◌, ◌%◌, ◌^◌, Bool, true, false, ◌&&◌, ◌||◌, String, List, [], ◌∷◌,
  Option, none, some, ℤ, pos, negsuc, leb, ltb, ◌==◌, if◌then◌else◌,
}

abbrev pub codes : String → List ℕ
codes String.[] = []
codes (String.◌∷◌ c s) = code c ∷ codes s

unfoldable pub is_digit : ℕ → Bool
is_digit c = leb b'0' c && leb c b'9'

-- `isspace`: a blank, or one of the codes 9 to 13.
unfoldable pub is_space : ℕ → Bool
is_space c = c == b' ' || leb 9 c && leb c 13

unfoldable pub skip_spaces : List ℕ → List ℕ
skip_spaces [] = []
skip_spaces (c ∷ cs) = if is_space c then skip_spaces cs else c ∷ cs

-- The value of the longest prefix of digits, with `acc` read before it.
unfoldable pub digits_value : ℕ → List ℕ → ℕ
digits_value acc [] = acc
digits_value acc (c ∷ cs) =
    let rest = digits_value (acc * 10 + (c - b'0')) cs in if is_digit c then rest else acc

unfoldable pub in_range : Bool → ℕ → Option ℤ
in_range false n = if ltb n (2 ^ 31) then some (pos n) else none
in_range true n =
    if n == 0 then some (pos 0) else if leb n (2 ^ 31) then some (negsuc (n - 1)) else none

unfoldable pub unsigned : Bool → List ℕ → Option ℤ
unsigned negative [] = none
unsigned negative (c ∷ cs) =
    if is_digit c then in_range negative (digits_value 0 (c ∷ cs)) else none

unfoldable pub signed : List ℕ → Option ℤ
signed [] = none
signed (c ∷ cs) =
    if c == b'-'
    then unsigned true cs
    else if c == b'+'
    then unsigned false cs
    else unsigned false (c ∷ cs)

unfoldable pub stoi : String → Option ℤ
unfolding is_digit is_space skip_spaces digits_value in_range unsigned signed
stoi s = signed (skip_spaces (codes s))

-- The text of a digit, and the decimal text of a number below `10 ^ f`.
abbrev pick : ℕ → String → String
pick n String.[] = ""
pick zero (String.◌∷◌ c s) = String.◌∷◌ c ""
pick (suc n) (String.◌∷◌ c s) = pick n s

abbrev pub digit : ℕ → String
digit n = pick n "0123456789"

decimal : (f : ℕ) → ℕ → String
decimal zero n = ""
decimal (suc f) n =
    let front = decimal f (n / 10) in
    if ltb n 10 then digit n else str_append front (digit (n % 10))

-- An `int` has at most ten digits.
pub to_string : ℤ → String
unfolding decimal
to_string (pos n) = decimal 10 n
to_string (negsuc n) = str_append "-" (decimal 10 (n + 1))
