-- ===== src/Coremgr/Timer/Expiry.antt =====
-- When timers fire, and how long the timer thread sleeps.
use mathlib.Core.List.{Perm, perm_middle}
use mathlib.Core.List.Perm
use raspberrypiservice.Prelude.{
  ℕ, ◌+◌, ◌≤◌, ◌<◌, ◌≡◌, sym, ◌∙◌, refl, ap, true, false, List, [], ◌∷◌, ◌++◌, Option, none, some,
  length, ltb, leb, if◌then◌else◌, All, append-nil, arith,
}
use raspberrypiservice.Common.EventQueue.{EventQueue, push_event}
use raspberrypiservice.Common.EventQueue.Fifo.{cons_some, event_list-push_event}
use raspberrypiservice.Coremgr.Timer.Table.{
  TimerElement, find, contains, Distinct, find-none, contains-none,
}
use raspberrypiservice.Coremgr.Timer.Ids.{IsWellFormed}
use raspberrypiservice.Coremgr.Timer.{
  Timer, internal_sleep_timeout_ms, expired, live, push_all, min_expire, sleep_for_next_item,
  thread_round, is_empty, excute_if_expired_exist_and_update_timer_elements,
}

module _ {A : Type 0} where
  -- The events of a list of elements, the null ones left out.
  abbrev pub events : List (TimerElement A) → List A
  events [] = []
  events (e ∷ es) = cons_some e.event (events es)

  push_all_lem :
      (es : List (TimerElement A)) (q : EventQueue A)
      → (push_all es q).event_list ≡ q.event_list ++ events es
  unfolding push_all
  push_all_lem [] q = sym (append-nil q.event_list)
  push_all_lem (e ∷ es) q =
      push_all_lem es (push_event e.event q).0 ∙ event_list-push_event e.event q (events es)

  expired-live-perm :
      (now : ℕ) (es : List (TimerElement A)) → Perm es (expired now es ++ live now es)
  unfolding expired live
  expired-live-perm now [] = Perm.nil
  expired-live-perm now (e ∷ es) =
      let rest = Perm.cons e (expired-live-perm now es) in
      ground (arith, rest, Perm.trans rest (Perm.symm (perm_middle (expired now es) (live now es))))

  All-expired :
      (now : ℕ) (es : List (TimerElement A)) → All (λ e. e.expire_time ≤ now) (expired now es)
  unfolding expired
  All-expired now [] = tt
  All-expired now (e ∷ es) = ground (arith, All-expired now es)

  All-live : (now : ℕ) (es : List (TimerElement A)) → All (λ e. now < e.expire_time) (live now es)
  unfolding live
  All-live now [] = tt
  All-live now (e ∷ es) = ground (arith, All-live now es)

  abbrev unless_expired : ℕ → Option (TimerElement A) → Option (TimerElement A)
  unless_expired now none = none
  unless_expired now (some e) = if leb e.expire_time now then none else some e

  find-live :
      (now id : ℕ) (es : List (TimerElement A))
      → Distinct es
      → find id (live now es) ≡ unless_expired now (find id es)
  unfolding find live
  find-live now id [] d = refl
  find-live now id (e ∷ es) d =
      ground (arith, find-live now id es d.1, find-none id es, ap (λ (k : ℕ). contains k es))

  length-live-le : (now : ℕ) (es : List (TimerElement A)) → length (live now es) ≤ length es
  unfolding live
  length-live-le now [] = omega arith
  length-live-le now (e ∷ es) = ground (arith, length-live-le now es)

  -- An element that expires at `now` leaves the table, which has no more elements than before.
  pub excute_expired :
      (now : ℕ) (t : Timer A) (q : EventQueue A) (id : ℕ) (e : TimerElement A)
      → IsWellFormed t
      → find id t.timer_table_map ≡ some e
      → e.expire_time ≤ now
      → let t' = (excute_if_expired_exist_and_update_timer_elements now t q).0 in
        (contains id t'.timer_table_map ≡ false)
        × (length t'.timer_table_map ≤ length t.timer_table_map)
        × (t'.next_timer_id ≡ t.next_timer_id)
        × (t'.event_queue_set ≡ t.event_queue_set)
  unfolding excute_if_expired_exist_and_update_timer_elements
  excute_expired now t q id e v at late = (
    contains-none id (live now t.timer_table_map)
        (find-live now id t.timer_table_map v.distinct ∙ rw at (ground arith)),
    length-live-le now t.timer_table_map,
    refl,
    refl,
  )

  -- `gone` are the elements that leave the table.
  abbrev pub SplitsExpired : ℕ → Timer A → EventQueue A → Type 0
  SplitsExpired now t q =
      (gone : List (TimerElement A)) × (t' : Timer A) × (q' : EventQueue A)
      × (excute_if_expired_exist_and_update_timer_elements now t q ≡ (t', q'))
      × Perm t.timer_table_map (gone ++ t'.timer_table_map)
      × All (λ e. e.expire_time ≤ now) gone
      × All (λ e. now < e.expire_time) t'.timer_table_map
      × (q'.event_list ≡ q.event_list ++ events gone)
      × ((id : ℕ) → find id t'.timer_table_map ≡ unless_expired now (find id t.timer_table_map))

  -- With a queue set, the elements split into those that have expired at `now` and those that have
  -- not; the events of the former, and only those, are queued behind what is there, and the table
  -- keeps the latter, so that a key has its element exactly until the element expires.
  pub excute_lem :
      (now : ℕ) (t : Timer A) (q : EventQueue A)
      → IsWellFormed t
      → t.event_queue_set ≡ true
      → SplitsExpired now t q
  unfolding excute_if_expired_exist_and_update_timer_elements
  excute_lem now t q v queue =
      let es = t.timer_table_map in
      (
        expired now es,
        record t { timer_table_map = live now es },
        push_all (expired now es) q,
        simp queue,
        expired-live-perm now es,
        All-expired now es,
        All-live now es,
        push_all_lem (expired now es) q,
        λ id. find-live now id es v.distinct,
      )

  min_expire-le : (best : ℕ) (es : List (TimerElement A)) → min_expire best es ≤ best
  unfolding min_expire
  min_expire-le best [] = omega arith
  min_expire-le best (e ∷ es) =
      ground (arith, min_expire-le best es, min_expire-le e.expire_time es)

  below_min :
      (m best : ℕ) (es : List (TimerElement A))
      → m ≤ min_expire best es
      → All (λ e. m ≤ e.expire_time) es
  unfolding min_expire
  below_min m best [] h = tt
  below_min m best (e ∷ es) h =
      let next : ℕ = if ltb e.expire_time best then e.expire_time else best in
      let small : next ≤ e.expire_time = ground arith in
      let least : min_expire next es ≤ next = min_expire-le next es in
      (omega arith, below_min m next es h)

  min_expire-lt :
      (bound best : ℕ) (es : List (TimerElement A))
      → bound < best
      → All (λ e. bound < e.expire_time) es
      → bound < min_expire best es
  unfolding min_expire
  min_expire-lt bound best [] h a = h
  min_expire-lt bound best (e ∷ es) h a =
      ground (arith, min_expire-lt bound best es, min_expire-lt bound e.expire_time es)

  -- The time that the thread sleeps up to is at most 2500 ms away and at most the expire time of
  -- each timer, and it lies ahead if no timer of the table has expired.
  pub sleep_bounds :
      (now : ℕ) (es : List (TimerElement A))
      → (sleep_for_next_item now es ≤ now + internal_sleep_timeout_ms)
        × All (λ e. sleep_for_next_item now es ≤ e.expire_time) es
        × (All (λ e. now < e.expire_time) es → now < sleep_for_next_item now es)
  unfolding sleep_for_next_item
  sleep_bounds now [] = (omega arith, tt, λ a. omega arith)
  sleep_bounds now (e ∷ es) =
      let least = min_expire e.expire_time (e ∷ es) in
      let limit = now + internal_sleep_timeout_ms in
      let till : ℕ = if ltb limit least then limit else least in
      (
        ground arith,
        below_min till e.expire_time (e ∷ es) (ground arith),
        λ a. ground (arith, min_expire-lt now e.expire_time (e ∷ es) a.0 a),
      )

  table_after : List (TimerElement A) → ℕ → Timer A → EventQueue A → List (TimerElement A)
  table_after es now t q =
      (if is_empty es
        then (t, q)
        else excute_if_expired_exist_and_update_timer_elements now t q).0.timer_table_map

  table_after-All :
      (es : List (TimerElement A)) (now : ℕ) (t : Timer A) (q : EventQueue A)
      → t.timer_table_map ≡ es
      → All (λ e. now < e.expire_time) (table_after es now t q)
  unfolding table_after excute_if_expired_exist_and_update_timer_elements
  table_after-All [] now t q e = rw e tt
  table_after-All (x ∷ es) now t q e = All-live now t.timer_table_map

  -- After a round every timer left expires later than the round, and the thread sleeps: for 2500 ms
  -- at most, and never past the expire time of a timer.
  pub thread_round-sleep :
      (now : ℕ) (t : Timer A) (q : EventQueue A)
      → let (t', q', till) = thread_round now t q in
        (now < till)
        × (till ≤ now + internal_sleep_timeout_ms)
        × All (λ e. now < e.expire_time) t'.timer_table_map
        × All (λ e. till ≤ e.expire_time) t'.timer_table_map
  unfolding thread_round table_after
  thread_round-sleep now t q =
      let left = table_after t.timer_table_map now t q in
      let ahead : All (λ e. now < e.expire_time) left =
        table_after-All t.timer_table_map now t q refl in
      let (near, all, later) = sleep_bounds now left in (later ahead, near, ahead, all)
