-- ===== src/Coremgr/Timer.antt =====
-- coremgr/src/Thread/Timer.cpp. The table stands for the unordered map: the order of the list is the
-- order in which the map is iterated. Times are milliseconds of the steady clock and do not wrap; an
-- id of -1 is `none`. A call is one step: `startTimer` takes `timerMutex` once to choose an id and
-- once to insert, and only the main thread calls it, so between the two the timer thread can at most
-- remove other elements.
pub mod Table
pub mod Ids
pub mod Invariant
pub mod Runs
pub mod Expiry
mod Examples
use raspberrypiservice.Prelude.{
  ℕ, zero, suc, ◌+◌, ◌-◌, Bool, true, false, List, [], ◌∷◌, Option, none, some, length, ltb, leb,
  ◌==◌, if◌then◌else◌,
}
use raspberrypiservice.Common.EventQueue.{EventQueue, push_event}
use Table.{TimerElement, contains, erase, insert}

abbrev pub int32_max : ℕ
int32_max = 2147483647

abbrev pub internal_sleep_timeout_ms : ℕ
internal_sleep_timeout_ms = 2500

-- `event_queue_set` says whether `eventQueue_` is not null.
pub record Timer (A : Type 0) : Type 0 where
  pub event_queue_set : Bool
  pub next_timer_id : ℕ
  pub timer_table_map : List (TimerElement A)

-- `nextTimerId++`, with the wrap to 1 below `int32_max`.
advance : ℕ → ℕ
advance n = if n + 1 == int32_max then 1 else n + 1

module _ {A : Type 0} where
  unfoldable pub init_timer : Timer A
  init_timer = record { event_queue_set = false; next_timer_id = 1; timer_table_map = [] }

  unfoldable pub set_event_queue : Timer A → Timer A
  set_event_queue t = record t { event_queue_set = true }

  -- The loop that looks for an id that is not in use; `none` means that the fuel ran out.
  find_free : ℕ → ℕ → List (TimerElement A) → Option ℕ
  find_free zero n table = none
  find_free (suc f) n table = elim (contains n table) [
    | true ↦ find_free f (advance n) table
    | false ↦ some n
  ]

  keep_id : Timer A → Option ℕ → Option ℕ × Timer A
  keep_id t none = (none, t)
  keep_id t (some n) = (some n, record t { next_timer_id = n })

  pub create_new_timer_id : Timer A → Option ℕ × Timer A
  create_new_timer_id t =
      if leb (int32_max - 1) (length t.timer_table_map)
      then (none, t)
      else keep_id t (
          find_free int32_max (if t.next_timer_id == int32_max then 1 else t.next_timer_id)
            t.timer_table_map)

  -- `makeNewTimerElement` and `startTimer`, called at the time `now`.
  make_new_timer_element : ℕ → ℕ → Option A → ℕ → TimerElement A
  make_new_timer_element now timeout_ms event id = record {
    timer_id = id;
    timeout_ms = timeout_ms;
    expire_time = now + timeout_ms;
    event = event;
  }

  insert_new : ℕ → ℕ → Option A → Option ℕ × Timer A → Option ℕ × Timer A
  insert_new now timeout_ms event (none, t) = (none, t)
  insert_new now timeout_ms event (some id, t) = (
    some id,
    record t {
      timer_table_map = insert (make_new_timer_element now timeout_ms event id) t.timer_table_map;
    },
  )

  pub start_timer : ℕ → ℕ → Option A → Timer A → Option ℕ × Timer A
  unfolding insert_new make_new_timer_element
  start_timer now timeout_ms event t =
      if t.event_queue_set
      then insert_new now timeout_ms event (create_new_timer_id t)
      else (none, t)

  unfoldable pub stop_timer : ℕ → Timer A → Bool × Timer A
  stop_timer id t =
      if contains id t.timer_table_map
      then (true, record t { timer_table_map = erase id t.timer_table_map })
      else (false, t)

  -- The loop that moves the expired elements to `expiredTimerElementList`, and what it leaves.
  expired : ℕ → List (TimerElement A) → List (TimerElement A)
  expired now [] = []
  expired now (e ∷ es) = if leb e.expire_time now then e ∷ expired now es else expired now es

  live : ℕ → List (TimerElement A) → List (TimerElement A)
  live now [] = []
  live now (e ∷ es) = if leb e.expire_time now then live now es else e ∷ live now es

  -- The loop that pushes the events of the expired elements.
  push_all : List (TimerElement A) → EventQueue A → EventQueue A
  push_all [] q = q
  push_all (e ∷ es) q = push_all es (push_event e.event q).0

  pub excute_if_expired_exist_and_update_timer_elements :
      ℕ → Timer A → EventQueue A → Timer A × EventQueue A
  unfolding expired live push_all push_event
  excute_if_expired_exist_and_update_timer_elements now t q = (
    record t { timer_table_map = live now t.timer_table_map },
    if t.event_queue_set then push_all (expired now t.timer_table_map) q else q,
  )

  -- The loop that finds the least expire time.
  min_expire : ℕ → List (TimerElement A) → ℕ
  min_expire best [] = best
  min_expire best (e ∷ es) = min_expire (if ltb e.expire_time best then e.expire_time else best) es

  -- The time up to which `sleepForNextItem` waits.
  pub sleep_for_next_item : ℕ → List (TimerElement A) → ℕ
  unfolding min_expire
  sleep_for_next_item now [] = now + internal_sleep_timeout_ms
  sleep_for_next_item now (e ∷ es) =
      let next = min_expire e.expire_time (e ∷ es) in
      if ltb (now + internal_sleep_timeout_ms) next then now + internal_sleep_timeout_ms else next

  abbrev is_empty : List (TimerElement A) → Bool
  is_empty [] = true
  is_empty (e ∷ es) = false

  -- One round of `threadFunction`, up to the wait: the new state, and the time to sleep up to.
  pub thread_round : ℕ → Timer A → EventQueue A → Timer A × EventQueue A × ℕ
  unfolding excute_if_expired_exist_and_update_timer_elements sleep_for_next_item
  thread_round now t q =
      let (t', q') =
        if is_empty t.timer_table_map
        then (t, q)
        else excute_if_expired_exist_and_update_timer_elements now t q in
      (t', q', sleep_for_next_item now t'.timer_table_map)
