-- ===== src/Common/Text/Search.antt =====
-- Where `find` and `rfind` find a text, and what two replacements leave.
use Prim.Native.Char.{Char, code}
use Prim.Native.String.{◌++◌ as str_append}
use Prim.Native.String.append
use raspberrypiservice.Prelude.{
  ℕ, ◌≡◌, refl, ◌∙◌, ap, true, false, String, none, some, All, ◌==◌, sym, ==_iff, Bool-cases, inl,
  inr, arith,
}
use text.Mathlib.TextEquality.{Char-path}
use raspberrypiservice.Common.Stdlib.{codes}
use raspberrypiservice.Common.Text.{replace, drop_prefix, or_else, after_first, after_last}

-- The character is not in the text.
abbrev pub Lacks : ℕ → String → Type 0
Lacks n s = All (λ c. (c == n) ≡ false) (codes s)

-- A replacement is undone by the one in the other direction, if the text lacks the character `b`.
pub replace-replace :
    (a b : Char) (s : String) → Lacks (code b) s → replace (code b) a (replace (code a) b s) ≡ s
unfolding replace
replace-replace a b String.[] h = refl
replace-replace a b (String.◌∷◌ c s) h = elim (Bool-cases (code c == code a)) [
  | inl same ↦
      let back : (code b == code b) ≡ true = (==_iff (code b) (code b)).1 refl in
      let char_same : a ≡ c = Char-path a c (sym ((==_iff (code c) (code a)).0 same)) in
      rw (same, back) (λ i. String.◌∷◌ (char_same i) (replace-replace a b s h.1 i))
  | inr other ↦ rw (other, h.0, replace-replace a b s h.1) refl
]

-- A text that lacks the first character of `p` has no `p` in it.
pub after_last-Lacks :
    (d : Char) (p s : String) → Lacks (code d) s → after_last (String.◌∷◌ d p) s ≡ none
unfolding after_last drop_prefix
after_last-Lacks d p String.[] h = refl
after_last-Lacks d p (String.◌∷◌ c s) h = ground (arith, h, after_last-Lacks d p s h.1)

pub after_last-append :
    (p t u v : String) → after_last p u ≡ some v → after_last p (str_append t u) ≡ some v
unfolding after_last
after_last-append p String.[] u v h = ap (after_last p) (append.nil u) ∙ h
after_last-append p (String.◌∷◌ c t) u v h =
    ap (after_last p) (append.cons c t u)
    ∙ ap (λ o. or_else o (drop_prefix p (String.◌∷◌ c (str_append t u))))
        (after_last-append p t u v h)

drop_prefix-append : (p u : String) → drop_prefix p (str_append p u) ≡ some u
unfolding drop_prefix
drop_prefix-append String.[] u = ap (drop_prefix "") (append.nil u)
drop_prefix-append (String.◌∷◌ c p) u =
    let same : (code c == code c) ≡ true = (==_iff (code c) (code c)).1 refl in
    ap (drop_prefix (String.◌∷◌ c p)) (append.cons c p u) ∙ rw (same, drop_prefix-append p u) refl

drop_prefix_other :
    (d : Char) (p : String) (c : Char) (s : String)
    → (code c == code d) ≡ false
    → drop_prefix (String.◌∷◌ d p) (String.◌∷◌ c s) ≡ none
unfolding drop_prefix
drop_prefix_other d p c s h = ground (arith, h)

-- The same with the first character split off.
drop_prefix_head :
    (d : Char) (p u : String)
    → drop_prefix (String.◌∷◌ d p) (String.◌∷◌ d (str_append p u)) ≡ some u
unfolding drop_prefix
drop_prefix_head d p u =
    let same : (code d == code d) ≡ true = (==_iff (code d) (code d)).1 refl in
    rw (same, drop_prefix-append p u) refl

-- A text is found after characters that it does not begin with.
pub after_first-append :
    (d : Char) (p t u : String)
    → Lacks (code d) t
    → after_first (String.◌∷◌ d p) (str_append t (str_append (String.◌∷◌ d p) u)) ≡ some u
unfolding after_first
after_first-append d p String.[] u h =
    ap (after_first (String.◌∷◌ d p))
      (append.nil (str_append (String.◌∷◌ d p) u) ∙ append.cons d p u)
    ∙ ap (λ o. or_else o (after_first (String.◌∷◌ d p) (str_append p u))) (drop_prefix_head d p u)
after_first-append d p (String.◌∷◌ c t) u h =
    let rest = str_append t (str_append (String.◌∷◌ d p) u) in
    let elsewhere = drop_prefix_other d p c rest h.0 in
    ap (after_first (String.◌∷◌ d p)) (append.cons c t (str_append (String.◌∷◌ d p) u))
    ∙ ap (λ o. or_else o (after_first (String.◌∷◌ d p) rest)) elsewhere
    ∙ after_first-append d p t u h.1

-- `rfind` finds a text before characters that it does not begin with, if it does not begin again
-- within itself.
pub after_last-start :
    (d : Char) (p u : String)
    → Lacks (code d) (str_append p u)
    → after_last (String.◌∷◌ d p) (str_append (String.◌∷◌ d p) u) ≡ some u
unfolding after_last
after_last-start d p u h =
    ap (after_last (String.◌∷◌ d p)) (append.cons d p u)
    ∙ ap (λ o. or_else o (drop_prefix (String.◌∷◌ d p) (String.◌∷◌ d (str_append p u))))
        (after_last-Lacks d p (str_append p u) h)
    ∙ drop_prefix_head d p u

-- A text that lacks the first character of `p` has no `p` in it for `find` either.
pub after_first-Lacks :
    (d : Char) (p s : String) → Lacks (code d) s → after_first (String.◌∷◌ d p) s ≡ none
unfolding after_first drop_prefix
after_first-Lacks d p String.[] h = refl
after_first-Lacks d p (String.◌∷◌ c s) h =
    ap (λ o. or_else o (after_first (String.◌∷◌ d p) s)) (drop_prefix_other d p c s h.0)
    ∙ after_first-Lacks d p s h.1
