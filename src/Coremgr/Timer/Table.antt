-- ===== src/Coremgr/Timer/Table.antt =====
-- The table of timers of coremgr/include/Thread/Timer.hpp, by the key `timer_id`.
use raspberrypiservice.Prelude.{
  ℕ, suc, ◌<◌, ◌≡◌, ◌≢◌, refl, Bool, true, false, ◌||◌, List, [], ◌∷◌, Option, none, some, length,
  ◌==◌, if◌then◌else◌, arith,
}

pub record TimerElement (A : Type 0) : Type 0 where
  pub timer_id : ℕ
  pub timeout_ms : ℕ
  pub expire_time : ℕ
  pub event : Option A

module _ {A : Type 0} where
  -- `find(id)`, and whether it is not `end()`.
  unfoldable pub find : ℕ → List (TimerElement A) → Option (TimerElement A)
  find id [] = none
  find id (e ∷ es) = if e.timer_id == id then some e else find id es

  unfoldable pub contains : ℕ → List (TimerElement A) → Bool
  contains id [] = false
  contains id (e ∷ es) = e.timer_id == id || contains id es

  unfoldable pub erase : ℕ → List (TimerElement A) → List (TimerElement A)
  erase id [] = []
  erase id (e ∷ es) = if e.timer_id == id then es else e ∷ erase id es

  -- `insert` keeps the element that has the key already.
  unfoldable pub insert : TimerElement A → List (TimerElement A) → List (TimerElement A)
  insert e es = if contains e.timer_id es then es else e ∷ es

  pub length-erase :
      (id : ℕ) (es : List (TimerElement A))
      → contains id es ≡ true
      → suc (length (erase id es)) ≡ length es
  unfolding contains erase
  length-erase id [] h = ground arith
  length-erase id (e ∷ es) h = ground (arith, length-erase id es)

  pub contains-erase_ne :
      (id j : ℕ) (es : List (TimerElement A)) → id ≢ j → contains j (erase id es) ≡ contains j es
  unfolding contains erase
  contains-erase_ne id j [] h = refl
  contains-erase_ne id j (e ∷ es) h = ground (arith, contains-erase_ne id j es h)

  -- The keys of a map are distinct.
  abbrev pub Distinct : List (TimerElement A) → Type 0
  Distinct [] = Unit
  Distinct (e ∷ es) = (contains e.timer_id es ≡ false) × Distinct es

  abbrev pub Within : ℕ → List (TimerElement A) → Type 0
  Within m [] = Unit
  Within m (e ∷ es) = (0 < e.timer_id) × (e.timer_id < m) × Within m es

  pub contains-erase_self :
      (id : ℕ) (es : List (TimerElement A)) → Distinct es → contains id (erase id es) ≡ false
  unfolding contains erase
  contains-erase_self id [] d = refl
  contains-erase_self id (e ∷ es) d = ground (arith, contains-erase_self id es d.1)

  pub find-erase_ne :
      (id j : ℕ) (es : List (TimerElement A)) → id ≢ j → find j (erase id es) ≡ find j es
  unfolding find erase
  find-erase_ne id j [] h = refl
  find-erase_ne id j (e ∷ es) h = ground (arith, find-erase_ne id j es h)

  pub erase-Distinct : (id : ℕ) (es : List (TimerElement A)) → Distinct es → Distinct (erase id es)
  unfolding contains erase
  erase-Distinct id [] d = tt
  erase-Distinct id (e ∷ es) d =
      ground (arith, erase-Distinct id es d.1, contains-erase_ne id e.timer_id es)

  pub erase-Within : (m id : ℕ) (es : List (TimerElement A)) → Within m es → Within m (erase id es)
  unfolding erase
  erase-Within m id [] w = tt
  erase-Within m id (e ∷ es) w = ground (arith, erase-Within m id es w.2)

  pub find-none : (id : ℕ) (es : List (TimerElement A)) → contains id es ≡ false → find id es ≡ none
  unfolding contains find
  find-none id [] h = refl
  find-none id (e ∷ es) h = ground (arith, find-none id es)

  pub contains-none :
      (id : ℕ) (es : List (TimerElement A)) → find id es ≡ none → contains id es ≡ false
  unfolding contains find
  contains-none id [] h = refl
  contains-none id (e ∷ es) h = ground (arith, contains-none id es)
