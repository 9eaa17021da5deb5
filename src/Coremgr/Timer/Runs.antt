-- ===== src/Coremgr/Timer/Runs.antt =====
-- Any sequence of calls of a timer.
use raspberrypiservice.Prelude.{ℕ, List, [], ◌∷◌, Option, arith}
use raspberrypiservice.Common.EventQueue.{EventQueue}
use raspberrypiservice.Coremgr.Timer.Ids.{IsWellFormed}
use raspberrypiservice.Coremgr.Timer.Invariant.{
  start_timer-IsWellFormed, stop_timer_lem, excute-IsWellFormed,
}
use raspberrypiservice.Coremgr.Timer.{
  Timer, init_timer, set_event_queue, start_timer, stop_timer,
  excute_if_expired_exist_and_update_timer_elements,
}

-- A call of the timer, or one round of its thread up to the wait.
pub data Call (A : Type 0) : Type 0 where
  sets_queue : Call A
  starts : (now timeout_ms : ℕ) (event : Option A) → Call A
  stops : (id : ℕ) → Call A
  expires : (now : ℕ) → Call A

module _ {A : Type 0} where
  unfoldable pub step : Call A → Timer A × EventQueue A → Timer A × EventQueue A
  step sets_queue (t, q) = (set_event_queue t, q)
  step (starts now timeout_ms event) (t, q) = ((start_timer now timeout_ms event t).1, q)
  step (stops id) (t, q) = ((stop_timer id t).1, q)
  step (expires now) (t, q) = excute_if_expired_exist_and_update_timer_elements now t q

  unfoldable pub run : List (Call A) → Timer A × EventQueue A → Timer A × EventQueue A
  run [] s = s
  run (c ∷ cs) s = run cs (step c s)

  step-IsWellFormed :
      (c : Call A) (s : Timer A × EventQueue A) → IsWellFormed s.0 → IsWellFormed (step c s).0
  unfolding step set_event_queue
  step-IsWellFormed sets_queue (t, q) v = record {
    next_pos = v.next_pos;
    next_below = v.next_below;
    distinct = v.distinct;
    within = v.within;
  }
  step-IsWellFormed (starts now d event) (t, q) v = start_timer-IsWellFormed now d event t v
  step-IsWellFormed (stops id) (t, q) v = let (_, _, _, _, v') = stop_timer_lem id t v in v'
  step-IsWellFormed (expires now) (t, q) v = excute-IsWellFormed now t q v

  run-IsWellFormed :
      (cs : List (Call A)) (s : Timer A × EventQueue A)
      → IsWellFormed s.0
      → IsWellFormed (run cs s).0
  unfolding run
  run-IsWellFormed [] s v = v
  run-IsWellFormed (c ∷ cs) s v = run-IsWellFormed cs (step c s) (step-IsWellFormed c s v)

  pub init_timer-IsWellFormed : IsWellFormed (init_timer {A = A})
  unfolding init_timer
  init_timer-IsWellFormed = omega arith

  -- Whatever calls are made of a new timer, the ids in the table are distinct and lie between 1 and
  -- `int32_max - 1`, and so does the id at which the next search begins.
  pub run-init_timer-IsWellFormed :
      (cs : List (Call A)) (q : EventQueue A) → IsWellFormed (run cs (init_timer, q)).0
  run-init_timer-IsWellFormed cs q = run-IsWellFormed cs (init_timer, q) init_timer-IsWellFormed
