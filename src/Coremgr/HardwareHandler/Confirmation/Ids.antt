-- ===== src/Coremgr/HardwareHandler/Confirmation/Ids.antt =====
-- `timerIdMap_` as a map from addresses to timer ids.
use raspberrypiservice.Prelude.{
  ℕ, ◌≡◌, refl, String, List, [], ◌∷◌, none, some, str_eq, eq_iff, eq_refl, false, if◌then◌else◌,
  arith,
}
use raspberrypiservice.Coremgr.HardwareHandler.Confirmation.{find_id, erase_id, set_id}

-- The keys of the map are distinct.
abbrev pub DistinctKeys : List (String × ℕ) → Type 0
DistinctKeys [] = Unit
DistinctKeys ((k, v) ∷ m) = (find_id k m ≡ none) × DistinctKeys m

pub find_id-set_id :
    (key j : String) (id : ℕ) (m : List (String × ℕ))
    → find_id j (set_id key id m) ≡ (if str_eq key j then some id else find_id j m)
unfolding find_id set_id
find_id-set_id key j id [] = refl
find_id-set_id key j id ((k, v) ∷ m) =
    ground (arith, eq_iff k key, eq_iff k j, eq_iff key j, find_id-set_id key j id m)

pub find_id-set_id_self :
    (key : String) (id : ℕ) (m : List (String × ℕ)) → find_id key (set_id key id m) ≡ some id
find_id-set_id_self key id m = rw (find_id-set_id key key id m) (rw (eq_refl key))

pub find_id-erase_id_ne :
    (key j : String) (m : List (String × ℕ))
    → str_eq key j ≡ false
    → find_id j (erase_id key m) ≡ find_id j m
unfolding find_id erase_id
find_id-erase_id_ne key j [] h = refl
find_id-erase_id_ne key j ((k, v) ∷ m) h =
    ground (arith, eq_iff k key, eq_iff k j, eq_iff key j, find_id-erase_id_ne key j m h)

pub find_id-erase_id_self :
    (key : String) (m : List (String × ℕ)) → DistinctKeys m → find_id key (erase_id key m) ≡ none
unfolding find_id erase_id
find_id-erase_id_self key [] d = refl
find_id-erase_id_self key ((k, v) ∷ m) d =
    ground (arith, eq_iff k key, find_id-erase_id_self key m d.1)

pub set_id-DistinctKeys :
    (key : String) (id : ℕ) (m : List (String × ℕ))
    → DistinctKeys m
    → DistinctKeys (set_id key id m)
unfolding set_id find_id
set_id-DistinctKeys key id [] d = (refl, tt)
set_id-DistinctKeys key id ((k, v) ∷ m) d =
    ground (
      arith,
      eq_iff k key,
      eq_iff key k,
      find_id-set_id key k id m,
      set_id-DistinctKeys key id m d.1,
    )
