-- ===== src/Hardwaremgr/OfonoDbus/Containers.antt =====
-- `std::set<std::string>`, a list in the order of `std::less`, and the maps whose keys are texts, of
-- which only the values of the keys are read.
use Prim.Native.Char.{code}
use raspberrypiservice.Prelude.{
  Bool, true, false, ◌||◌, String, List, [], ◌∷◌, Option, none, some, ◌==◌, ltb, str_eq,
  if◌then◌else◌,
}

-- `a < b`, by the code points, which is the order of the bytes of UTF-8.
unfoldable pub less : String → String → Bool
less String.[] String.[] = false
less String.[] (String.◌∷◌ d t) = true
less (String.◌∷◌ c s) String.[] = false
less (String.◌∷◌ c s) (String.◌∷◌ d t) =
    let rest = less s t in
    if ltb (code c) (code d) then true else if code c == code d then rest else false

-- `insert`: a text that is there already stays as it is.
unfoldable pub insert : String → List String → List String
insert x [] = x ∷ []
insert x (y ∷ ys) =
    let rest = insert x ys in if less x y then x ∷ y ∷ ys else if less y x then y ∷ rest else y ∷ ys

-- `erase`
unfoldable pub erase : String → List String → List String
erase x [] = []
erase x (y ∷ ys) = let rest = erase x ys in if str_eq x y then ys else y ∷ rest

-- `count`, or `find` compared with `end()`
unfoldable pub count : String → List String → Bool
count x [] = false
count x (y ∷ ys) = str_eq x y || count x ys

-- `m[k] = v`
unfoldable pub store {ℓ} : {A : Type ℓ} (k : String) (v : A) → List (String × A) → List (String × A)
store k v [] = (k, v) ∷ []
store k v ((l, w) ∷ m) = let rest = store k v m in if str_eq k l then (k, v) ∷ m else (l, w) ∷ rest

-- `find`, and the value of a key or the empty text.
unfoldable pub find {ℓ} : {A : Type ℓ} → String → List (String × A) → Option A
find k [] = none
find k ((l, w) ∷ m) = let rest = find k m in if str_eq k l then some w else rest

unfoldable pub remove {ℓ} : {A : Type ℓ} → String → List (String × A) → List (String × A)
remove k [] = []
remove k ((l, w) ∷ m) = let rest = remove k m in if str_eq k l then m else (l, w) ∷ rest

unfoldable pub lookup : String → List (String × String) → String
unfolding find
lookup k m = elim (find k m) [ none ↦ "" | some v ↦ v ]
