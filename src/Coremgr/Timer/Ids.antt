-- ===== src/Coremgr/Timer/Ids.antt =====
-- The allocation of timer ids: `createNewTimerId` finds an id that is not in use.
use raspberrypiservice.Prelude.{
  ℕ, zero, suc, ◌+◌, ◌-◌, ◌≤◌, ◌<◌, ◌≡◌, ◌∙◌, ◌⊎◌, inl, inr, true, false, List, none, some, length,
  leb, ◌==◌, Bool-cases, Option-cases, arith,
}
use native.Mathlib.Decide.{dec_le}
use raspberrypiservice.Coremgr.Timer.Table.{
  TimerElement, contains, erase, length-erase, contains-erase_ne, Distinct, Within,
}
use raspberrypiservice.Coremgr.Timer.{
  Timer, int32_max, advance, find_free, keep_id, create_new_timer_id,
}

advance_cases :
    (n : ℕ)
    → n < int32_max
    → ((suc n ≡ int32_max) × (advance n ≡ 1)) ⊎ ((suc n < int32_max) × (advance n ≡ suc n))
unfolding advance
advance_cases n h = ground arith

module _ {A : Type 0} where
  -- A table that has the ids 1 to `k` has at least `k` elements.
  length-le_of_contains :
      (k : ℕ) (es : List (TimerElement A))
      → ((i : ℕ) → 0 < i → i ≤ k → contains i es ≡ true)
      → k ≤ length es
  length-le_of_contains zero es h = omega arith
  length-le_of_contains (suc k) es h =
      let shorter : k ≤ length (erase (suc k) es) =
        length-le_of_contains k (erase (suc k) es)
          (λ i p q. contains-erase_ne (suc k) i es (omega arith) ∙ h i p (omega arith)) in
      omega (arith, shorter, length-erase (suc k) es (h (suc k) (omega arith) (omega arith)))

  -- A search that runs out of fuel has met only ids in use.
  find_free-none :
      (f n : ℕ) (es : List (TimerElement A))
      → 0 < n
      → n < int32_max
      → find_free f n es ≡ none
      → (i : ℕ) → 0 < i
      → i < int32_max
      → ((n ≤ i) × (i < n + f)) ⊎ (i + int32_max < n + f + 1)
      → contains i es ≡ true
  unfolding find_free
  find_free-none zero n es p q e i pi qi c = absurd (omega arith)
  find_free-none (suc f) n es p q e i pi qi c =
      let rest = find_free-none f (advance n) es in
      elim (advance_cases n q) [
        | inl (wrap, one) ↦ ground (arith, rest (omega arith) (omega arith) (ground arith) i pi qi)
        | inr (below, next) ↦
            ground (arith, rest (omega arith) (omega arith) (ground arith) i pi qi)
      ]

  find_free-some :
      (f n : ℕ) (es : List (TimerElement A)) (r : ℕ)
      → 0 < n
      → n < int32_max
      → find_free f n es ≡ some r
      → (contains r es ≡ false) × (0 < r) × (r < int32_max)
  unfolding find_free
  find_free-some zero n es r p q e = cc
  find_free-some (suc f) n es r p q e =
      ground (arith, advance_cases n q, find_free-some f (advance n) es r)

-- What holds of the timer between two calls.
pub record IsWellFormed {A : Type 0} (t : Timer A) : Type 0 where
  pub next_pos : 0 < t.next_timer_id
  pub next_below : t.next_timer_id < int32_max
  pub distinct : Distinct t.timer_table_map
  pub within : Within int32_max t.timer_table_map

reached :
    (n i : ℕ)
    → 0 < n
    → i < int32_max
    → ((n ≤ i) × (i < n + int32_max)) ⊎ (i + int32_max < n + int32_max + 1)
reached n i p q = elim (dec_le n i) [ yes h ↦ inl (h, omega arith) | no h ↦ inr (omega arith) ]

module _ {A : Type 0} where
  find_free_total :
      (n : ℕ) (es : List (TimerElement A))
      → 0 < n
      → n < int32_max
      → length es < int32_max - 1
      → (r : ℕ) × (find_free int32_max n es ≡ some r)
  find_free_total n es p q short = elim (Option-cases (find_free int32_max n es)) [
    | inr found ↦ found
    | inl none_left ↦
        let full : int32_max - 1 ≤ length es = length-le_of_contains (int32_max - 1) es (λ i pi qi.
          find_free-none int32_max n es p q none_left i pi (omega arith)
            (reached n i p (omega arith))) in
        absurd (omega arith)
  ]

  find_free_fresh :
      (n : ℕ) (es : List (TimerElement A))
      → 0 < n
      → n < int32_max
      → length es < int32_max - 1
      → (r : ℕ) × (find_free int32_max n es ≡ some r)
        × (contains r es ≡ false)
        × (0 < r)
        × (r < int32_max)
  find_free_fresh n es p q short =
      let (r, e) = find_free_total n es p q short in
      let (free, low, high) = find_free-some int32_max n es r p q e in (r, e, free, low, high)

  created :
      (t : Timer A) (id : ℕ)
      → leb (int32_max - 1) (length t.timer_table_map) ≡ false
      → t.next_timer_id < int32_max
      → find_free int32_max t.next_timer_id t.timer_table_map ≡ some id
      → create_new_timer_id t ≡ (some id, record t { next_timer_id = id })
  unfolding create_new_timer_id keep_id
  created t id room below e =
      let unwrapped : (t.next_timer_id == int32_max) ≡ false = ground arith in
      rw (room, unwrapped, e)

  abbrev pub GivesFresh : Timer A → Type 0
  GivesFresh t =
      ((length t.timer_table_map < int32_max - 1)
        × ((id : ℕ) × (create_new_timer_id t ≡ (some id, record t { next_timer_id = id }))
            × (contains id t.timer_table_map ≡ false)
            × (0 < id)
            × (id < int32_max)))
      ⊎ ((int32_max - 1 ≤ length t.timer_table_map) × (create_new_timer_id t ≡ (none, t)))

  find_free_first :
      (f n : ℕ) (es : List (TimerElement A))
      → contains n es ≡ false
      → find_free (suc f) n es ≡ some n
  unfolding find_free
  find_free_first f n es free = ground arith

  -- The search begins at the id that was given last, and takes it again once it is free.
  pub create_new_timer_id_reuses :
      (t : Timer A)
      → IsWellFormed t
      → length t.timer_table_map < int32_max - 1
      → contains t.next_timer_id t.timer_table_map ≡ false
      → create_new_timer_id t ≡ (some t.next_timer_id, t)
  create_new_timer_id_reuses t v room free =
      created t t.next_timer_id (ground arith) v.next_below
        (find_free_first (int32_max - 1) t.next_timer_id t.timer_table_map free)

  -- While fewer than `int32_max - 1` timers run, `create_new_timer_id` gives an id between 1 and
  -- `int32_max - 1` that no timer has, and remembers it; otherwise it fails and changes nothing.
  pub create_new_timer_id_fresh : (t : Timer A) → IsWellFormed t → GivesFresh t
  unfolding create_new_timer_id keep_id
  create_new_timer_id_fresh t v =
      elim (Bool-cases (leb (int32_max - 1) (length t.timer_table_map))) [
        | inl full ↦ inr (ground arith, rw full)
        | inr room ↦
            let (id, e, free, low, high) =
              find_free_fresh t.next_timer_id t.timer_table_map v.next_pos v.next_below
                (ground arith) in
            inl (ground arith, (id, created t id room v.next_below e, free, low, high))
      ]
