-- ===== src/Coremgr/Timer/Invariant.antt =====
-- What the calls of the timer do to the table, and the invariant that they keep.
use native.Mathlib.Decide.{ℕ_discrete}
use raspberrypiservice.Prelude.{
  ℕ, suc, ◌+◌, ◌-◌, ◌≤◌, ◌<◌, ◌≡◌, ◌≢◌, refl, sym, subst, ◌⊎◌, inl, inr, true, false, List, [], ◌∷◌,
  Option, none, some, length, Bool-cases, arith,
}
use raspberrypiservice.Common.EventQueue.{EventQueue}
use raspberrypiservice.Coremgr.Timer.Table.{
  TimerElement, find, contains, insert, Distinct, Within, erase-Distinct, erase-Within, find-none,
  contains-erase_self, find-erase_ne,
}
use raspberrypiservice.Coremgr.Timer.Ids.{
  IsWellFormed, create_new_timer_id_fresh, create_new_timer_id_reuses,
}
use raspberrypiservice.Coremgr.Timer.{
  Timer, int32_max, make_new_timer_element, start_timer, stop_timer, live,
  excute_if_expired_exist_and_update_timer_elements,
}

-- Whether a new timer can be had.
abbrev pub HasRoom : {A : Type 0} → Timer A → Type 0
HasRoom t = length t.timer_table_map < int32_max - 1

unless : {P : Type 0} (j k : ℕ) → (j ≢ k → P) → (j ≡ k) ⊎ P
unless j k p = elim (ℕ_discrete j k) [ yes same ↦ inl same | no other ↦ inr (p other) ]

module _ {A : Type 0} where
  -- A start that succeeds: the id was free, it has the new element now, and nothing else changed.
  abbrev pub StartsFresh : ℕ → ℕ → Option A → Timer A → Type 0
  StartsFresh now timeout_ms event t =
      (id : ℕ) × (t' : Timer A) × (start_timer now timeout_ms event t ≡ (some id, t'))
      × (find id t.timer_table_map ≡ none)
      × (find id t'.timer_table_map
          ≡ some (record {
            timer_id = id;
            timeout_ms = timeout_ms;
            expire_time = now + timeout_ms;
            event = event;
          }))
      × ((j : ℕ) → (j ≡ id) ⊎ (find j t'.timer_table_map ≡ find j t.timer_table_map))
      × IsWellFormed t'
      × (length t'.timer_table_map ≡ suc (length t.timer_table_map))
      × (t'.next_timer_id ≡ id)
      × (t'.event_queue_set ≡ true)

  -- With a queue set and room in the table, `start_timer` gives a fresh id, under which the table
  -- then has the element with its expire time; every other key keeps its element.
  pub start_timer_lem :
      (now timeout_ms : ℕ) (event : Option A) (t : Timer A)
      → IsWellFormed t
      → t.event_queue_set ≡ true
      → HasRoom t
      → StartsFresh now timeout_ms event t
  unfolding start_timer insert find
  start_timer_lem now d event t v queue room = elim (create_new_timer_id_fresh t v) [
    | inl (_, (id, e, free, low, high)) ↦ (
      id,
      record t {
        next_timer_id = id;
        timer_table_map = make_new_timer_element now d event id ∷ t.timer_table_map;
      },
      ground arith,
      find-none id t.timer_table_map free,
      ground arith,
      (λ j. unless j id (λ other. ground arith)),
      record {
        next_pos = low;
        next_below = high;
        distinct = (free, v.distinct);
        within = (low, high, v.within);
      },
      refl,
      refl,
      queue,
    )
    | inr (full, _) ↦ absurd (omega arith)
  ]

  abbrev pub StopsExactly : ℕ → Timer A → Type 0
  StopsExactly id t =
      ((stop_timer id t).0 ≡ contains id t.timer_table_map)
      × (contains id (stop_timer id t).1.timer_table_map ≡ false)
      × ((j : ℕ)
          → (j ≡ id) ⊎ (find j (stop_timer id t).1.timer_table_map ≡ find j t.timer_table_map))
      × (((stop_timer id t).0 ≡ true) ⊎ ((stop_timer id t).1 ≡ t))
      × IsWellFormed (stop_timer id t).1

  -- `stop_timer` succeeds exactly on an id in the table; the id is then gone, every other key keeps
  -- its element, and an unknown id changes nothing.
  pub stop_timer_lem : (id : ℕ) (t : Timer A) → IsWellFormed t → StopsExactly id t
  unfolding stop_timer
  stop_timer_lem id t v = (
    ground arith,
    ground (arith, contains-erase_self id t.timer_table_map v.distinct),
    (λ j.
        unless j id
          (λ other. ground (arith, find-erase_ne id j t.timer_table_map (λ e. other (sym e))))),
    ground arith,
    record {
      next_pos = ground arith;
      next_below = ground arith;
      distinct = ground (arith, erase-Distinct id t.timer_table_map v.distinct);
      within = ground (arith, erase-Within int32_max id t.timer_table_map v.within);
    },
  )

  pub start_timer-reuses :
      (now timeout_ms : ℕ) (event : Option A) (t : Timer A)
      → IsWellFormed t
      → t.event_queue_set ≡ true
      → HasRoom t
      → contains t.next_timer_id t.timer_table_map ≡ false
      → (start_timer now timeout_ms event t).0 ≡ some t.next_timer_id
  unfolding start_timer
  start_timer-reuses now d event t v queue room free =
      ground (arith, create_new_timer_id_reuses t v room free)

  -- Without a queue, or with the table full, `start_timer` fails and changes nothing.
  pub start_timer_fails :
      (now timeout_ms : ℕ) (event : Option A) (t : Timer A)
      → IsWellFormed t
      → (t.event_queue_set ≡ false) ⊎ (int32_max - 1 ≤ length t.timer_table_map)
      → start_timer now timeout_ms event t ≡ (none, t)
  unfolding start_timer
  start_timer_fails now d event t v (inl unset) = simp unset
  start_timer_fails now d event t v (inr full) = elim (create_new_timer_id_fresh t v) [
    | inl (room, _) ↦ absurd (omega arith)
    | inr (_, e) ↦ ground arith
  ]

  pub start_timer-IsWellFormed :
      (now timeout_ms : ℕ) (event : Option A) (t : Timer A)
      → IsWellFormed t
      → IsWellFormed (start_timer now timeout_ms event t).1
  start_timer-IsWellFormed now d event t v = elim (Bool-cases t.event_queue_set) [
    | inr unset ↦
        subst (λ r. IsWellFormed r.1) (sym (start_timer_fails now d event t v (inl unset))) v
    | inl queue ↦ elim (create_new_timer_id_fresh t v) [
      | inl (room, _) ↦
          let (id, t', e, _, _, _, v', _, _, _) = start_timer_lem now d event t v queue room in
          rw e v'
      | inr (full, _) ↦ rw (start_timer_fails now d event t v (inr full)) v
    ]
  ]

  live-contains :
      (now id : ℕ) (es : List (TimerElement A))
      → contains id es ≡ false
      → contains id (live now es) ≡ false
  unfolding live contains
  live-contains now id [] h = refl
  live-contains now id (e ∷ es) h = ground (arith, live-contains now id es)

  live-Distinct : (now : ℕ) (es : List (TimerElement A)) → Distinct es → Distinct (live now es)
  unfolding live
  live-Distinct now [] d = tt
  live-Distinct now (e ∷ es) d =
      ground (arith, live-Distinct now es d.1, live-contains now e.timer_id es d.0)

  live-Within : (m now : ℕ) (es : List (TimerElement A)) → Within m es → Within m (live now es)
  unfolding live
  live-Within m now [] w = tt
  live-Within m now (e ∷ es) w = ground (arith, live-Within m now es w.2)

  pub excute-IsWellFormed :
      (now : ℕ) (t : Timer A) (q : EventQueue A)
      → IsWellFormed t
      → IsWellFormed (excute_if_expired_exist_and_update_timer_elements now t q).0
  unfolding excute_if_expired_exist_and_update_timer_elements
  excute-IsWellFormed now t q v = record {
    next_pos = v.next_pos;
    next_below = v.next_below;
    distinct = live-Distinct now t.timer_table_map v.distinct;
    within = live-Within int32_max now t.timer_table_map v.within;
  }
