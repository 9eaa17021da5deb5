-- ===== src/Common/Stdlib/RoundTrip.antt =====
-- A text that `std::to_string` makes of an `int` is read back by `std::stoi`.
use Prim.Native.Char.{code}
use Prim.Native.String.{◌++◌ as str_append}
use Prim.Native.String.append
use raspberrypiservice.Prelude.{
  ℕ, zero, suc, ◌+◌, ◌-◌, ◌*◌, ◌/◌, ◌%◌, ◌^◌, ◌<◌, ◌≡◌, refl, ◌∙◌, ap, Bool, true, false, String,
  List, [], ◌∷◌, ◌++◌, some, ℤ, pos, negsuc, ltb, ◌==◌, All, Bool-cases, lt→ltb, ltb→lt, inl, inr,
  subst, arith,
}
use raspberrypiservice.Common.Stdlib.{
  codes, is_digit, is_space, skip_spaces, digits_value, in_range, unsigned, signed, stoi, digit,
  decimal, to_string,
}

pub codes-append : (s t : String) → codes (str_append s t) ≡ codes s ++ codes t
codes-append String.[] t = λ i. codes (append.nil t i)
codes-append (String.◌∷◌ c s) t =
    (λ i. codes (append.cons c s t i)) ∙ ap (λ cs. code c ∷ cs) (codes-append s t)

abbrev is_nil : List ℕ → Bool
is_nil [] = true
is_nil (c ∷ cs) = false

abbrev Digits : List ℕ → Type 0
Digits cs = All (λ c. is_digit c ≡ true) cs

digits_value-append :
    (acc : ℕ) (xs ys : List ℕ)
    → Digits xs
    → digits_value acc (xs ++ ys) ≡ digits_value (digits_value acc xs) ys
unfolding digits_value
digits_value-append acc [] ys d = refl
digits_value-append acc (x ∷ xs) ys d =
    ground (arith, d.0, digits_value-append (acc * 10 + (x - b'0')) xs ys d.1)

Digits-append : (xs ys : List ℕ) → Digits xs → Digits ys → Digits (xs ++ ys)
Digits-append [] ys d e = e
Digits-append (x ∷ xs) ys d e = (d.0, Digits-append xs ys d.1 e)

codes-digit : (n : ℕ) → n < 10 → codes (digit n) ≡ (b'0' + n) ∷ []
codes-digit zero h = refl
codes-digit (suc zero) h = refl
codes-digit (suc (suc zero)) h = refl
codes-digit (suc (suc (suc zero))) h = refl
codes-digit (suc (suc (suc (suc zero)))) h = refl
codes-digit (suc (suc (suc (suc (suc zero))))) h = refl
codes-digit (suc (suc (suc (suc (suc (suc zero)))))) h = refl
codes-digit (suc (suc (suc (suc (suc (suc (suc zero))))))) h = refl
codes-digit (suc (suc (suc (suc (suc (suc (suc (suc zero)))))))) h = refl
codes-digit (suc (suc (suc (suc (suc (suc (suc (suc (suc zero))))))))) h = refl
codes-digit (suc (suc (suc (suc (suc (suc (suc (suc (suc (suc n)))))))))) h = absurd (omega arith)

digit-Digits : (n : ℕ) → n < 10 → Digits ((b'0' + n) ∷ [])
unfolding is_digit
digit-Digits n h = (ground arith, tt)

-- The code points of a number's decimal text: digits, not none, that stand for the number.
record IsDecimal (n : ℕ) (cs : List ℕ) : Type 0 where
  some_digit : is_nil cs ≡ false
  digits : Digits cs
  value : digits_value 0 cs ≡ n

one_digit : (n : ℕ) → n < 10 → IsDecimal n (codes (digit n))
unfolding digits_value is_digit
one_digit n h =
    rw (codes-digit n h)
      (record { some_digit = refl; digits = digit-Digits n h; value = ground arith })

more_digits :
    (q d : ℕ) (s : String)
    → d < 10
    → IsDecimal q (codes s)
    → IsDecimal (q * 10 + d) (codes (str_append s (digit d)))
unfolding digits_value is_digit
more_digits q d s h v =
    let last = digits_value-append 0 (codes s) ((b'0' + d) ∷ []) v.digits in
    rw (codes-append s (digit d), codes-digit d h)
      (record {
        some_digit = ground (arith, v.some_digit);
        digits = Digits-append (codes s) ((b'0' + d) ∷ []) v.digits (digit-Digits d h);
        value = last ∙ ground (arith, v.value);
      })

-- `10 ^ (f + 1)`
abbrev tens : ℕ → ℕ
tens zero = 10
tens (suc f) = tens f * 10

decimal-IsDecimal : (f n : ℕ) → n < tens f → IsDecimal n (codes (decimal (suc f) n))
unfolding decimal
decimal-IsDecimal zero n h = rw (lt→ltb n 10 h) (one_digit n h)
decimal-IsDecimal (suc f) n h = elim (Bool-cases (ltb n 10)) [
  | inl small ↦ rw small (one_digit n (ltb→lt n 10 small))
  | inr large ↦
      let front = decimal-IsDecimal f (n / 10) (omega (arith, h)) in
      let whole = more_digits (n / 10) (n % 10) (decimal (suc f) (n / 10)) (omega arith) front in
      let value : n / 10 * 10 + n % 10 ≡ n = omega arith in
      rw large (
        subst (λ m. IsDecimal m (codes (str_append (decimal (suc f) (n / 10)) (digit (n % 10)))))
          value whole)
]

digit_only :
    (c : ℕ)
    → is_digit c ≡ true
    → (is_space c ≡ false) × ((c == b'-') ≡ false) × ((c == b'+') ≡ false)
unfolding is_digit is_space
digit_only c h = (ground arith, ground arith, ground arith)

signed_digits : (n : ℕ) (cs : List ℕ) → IsDecimal n cs → signed (skip_spaces cs) ≡ in_range false n
unfolding signed skip_spaces unsigned
signed_digits n [] v = cc (v.some_digit)
signed_digits n (c ∷ cs) v =
    let first = v.digits.0 in
    let (no_space, no_minus, no_plus) = digit_only c first in
    rw (no_space, no_minus, no_plus, first) (ap (in_range false) v.value)

unsigned_digits :
    (negative : Bool) (n : ℕ) (cs : List ℕ)
    → IsDecimal n cs
    → unsigned negative cs ≡ in_range negative n
unfolding unsigned
unsigned_digits negative n [] v = cc (v.some_digit)
unsigned_digits negative n (c ∷ cs) v = rw (v.digits.0) (ap (in_range negative) v.value)

stoi-to_string_pos : (n : ℕ) → n < 2 ^ 31 → stoi (to_string (pos n)) ≡ some (pos n)
unfolding stoi to_string in_range
stoi-to_string_pos n h =
    signed_digits n (codes (to_string (pos n))) (decimal-IsDecimal 9 n (omega (arith, h)))
    ∙ rw (lt→ltb n (2 ^ 31) h) refl

in_range_negative : (n : ℕ) → n < 2 ^ 31 → in_range true (n + 1) ≡ some (negsuc n)
unfolding in_range
in_range_negative n h = ground (arith, h)

stoi-to_string_negsuc : (n : ℕ) → n < 2 ^ 31 → stoi (to_string (negsuc n)) ≡ some (negsuc n)
unfolding stoi to_string signed skip_spaces is_space
stoi-to_string_negsuc n h =
    ap (λ cs. signed (skip_spaces cs)) (codes-append "-" (decimal 10 (n + 1)))
    ∙ unsigned_digits true (n + 1) (codes (decimal 10 (n + 1)))
        (decimal-IsDecimal 9 (n + 1) (omega (arith, h)))
    ∙ in_range_negative n h

-- The integers of 32 bits.
abbrev pub IsInt : ℤ → Type 0
IsInt (pos n) = n < 2 ^ 31
IsInt (negsuc n) = n < 2 ^ 31

-- The text of an `int` is read back as that `int`.
pub stoi-to_string : (n : ℤ) → IsInt n → stoi (to_string n) ≡ some n
stoi-to_string (pos n) h = stoi-to_string_pos n h
stoi-to_string (negsuc n) h = stoi-to_string_negsuc n h
