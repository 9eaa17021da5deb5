-- ===== src/Coremgr/Timer/Examples.antt =====
-- The timer on concrete inputs.
use raspberrypiservice.Prelude.{ℕ, ◌≡◌, refl, true, [], ◌∷◌, some, arith, All, ◌<◌, ◌≤◌, ◌+◌}
use raspberrypiservice.Common.EventQueue.{EventQueue}
use raspberrypiservice.Coremgr.Timer.Table.{contains}
use raspberrypiservice.Coremgr.Timer.Ids.{IsWellFormed, create_new_timer_id_fresh, GivesFresh}
use raspberrypiservice.Coremgr.Timer.Invariant.{
  StartsFresh, StopsExactly, start_timer_lem, stop_timer_lem,
}
use raspberrypiservice.Coremgr.Timer.Runs.{
  run-init_timer-IsWellFormed, run, starts, expires, sets_queue,
}
use raspberrypiservice.Coremgr.Timer.Expiry.{SplitsExpired, excute_lem, thread_round-sleep}
use raspberrypiservice.Coremgr.Timer.{
  Timer, start_timer, create_new_timer_id, keep_id, find_free, advance, init_timer, thread_round,
  internal_sleep_timeout_ms,
}

-- Two timers run, with the ids 1 and 2.
abbrev busy : Timer ℕ
busy = record {
  event_queue_set = true;
  next_timer_id = 2;
  timer_table_map =
      record { timer_id = 2; timeout_ms = 500; expire_time = 600; event = some 7 }
      ∷ record { timer_id = 1; timeout_ms = 50; expire_time = 150; event = some 8 }
      ∷ [];
}

busy-IsWellFormed : IsWellFormed busy
unfolding contains
busy-IsWellFormed = ground arith

abbrev empty_queue : EventQueue ℕ
empty_queue = record { event_list = [] }

-- The third timer gets the id 3.
start_third : (start_timer 200 30 (some 9) busy).0 ≡ some 3
unfolding start_timer create_new_timer_id keep_id find_free advance contains
start_third = refl

create_new_timer_id_fresh_example : GivesFresh busy
create_new_timer_id_fresh_example = create_new_timer_id_fresh busy busy-IsWellFormed

start_timer_lem_example : StartsFresh 200 30 (some 9) busy
start_timer_lem_example = start_timer_lem 200 30 (some 9) busy busy-IsWellFormed refl (omega arith)

stop_timer_lem_example : StopsExactly 1 busy
stop_timer_lem_example = stop_timer_lem 1 busy busy-IsWellFormed

excute_lem_example : SplitsExpired 200 busy empty_queue
excute_lem_example = excute_lem 200 busy empty_queue busy-IsWellFormed refl

thread_round-sleep_example :
    let (t', q', till) = thread_round 200 busy empty_queue in
    (200 < till)
    × (till ≤ 200 + internal_sleep_timeout_ms)
    × All (λ e. 200 < e.expire_time) t'.timer_table_map
    × All (λ e. till ≤ e.expire_time) t'.timer_table_map
thread_round-sleep_example = thread_round-sleep 200 busy empty_queue

run-init_timer-IsWellFormed_example :
    IsWellFormed
      (run (sets_queue ∷ starts 0 10 (some 4) ∷ expires 20 ∷ []) (init_timer, empty_queue)).0
run-init_timer-IsWellFormed_example =
    run-init_timer-IsWellFormed (sets_queue ∷ starts 0 10 (some 4) ∷ expires 20 ∷ []) empty_queue
