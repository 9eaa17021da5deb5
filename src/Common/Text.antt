-- ===== src/Common/Text.antt =====
-- The operations of `std::string` that the managers use: `find`, `rfind` and `substr`, `std::replace`,
-- `empty`.
pub mod Search
use Prim.Native.Char.{Char, code}
use raspberrypiservice.Prelude.{
  ℕ, Bool, true, false, String, Option, none, some, ◌==◌, if◌then◌else◌,
}

abbrev pub is_empty : String → Bool
is_empty String.[] = true
is_empty (String.◌∷◌ c s) = false

-- `std::replace(s.begin(), s.end(), a, b)`
unfoldable pub replace : (a : ℕ) (b : Char) → String → String
replace a b String.[] = ""
replace a b (String.◌∷◌ c s) =
    let rest = replace a b s in if code c == a then String.◌∷◌ b rest else String.◌∷◌ c rest

-- What follows the text `p` in a text that begins with it.
unfoldable pub drop_prefix : (p s : String) → Option String
drop_prefix String.[] s = some s
drop_prefix (String.◌∷◌ c p) String.[] = none
drop_prefix (String.◌∷◌ c p) (String.◌∷◌ d s) =
    let rest = drop_prefix p s in if code c == code d then rest else none

abbrev pub or_else : {A : Type 0} → Option A → Option A → Option A
or_else none b = b
or_else (some a) b = some a

-- `s.substr(s.find(p) + p.size())`, or none if `find` is `npos`.
unfoldable pub after_first : (p s : String) → Option String
unfolding drop_prefix
after_first p String.[] = drop_prefix p ""
after_first p (String.◌∷◌ c s) = or_else (drop_prefix p (String.◌∷◌ c s)) (after_first p s)

-- The same for `rfind`.
unfoldable pub after_last : (p s : String) → Option String
unfolding drop_prefix
after_last p String.[] = drop_prefix p ""
after_last p (String.◌∷◌ c s) = or_else (after_last p s) (drop_prefix p (String.◌∷◌ c s))
