-- ===== src/Recordmgr/RecordWorker/Balance.antt =====
-- What is announced about a recording, and what follows.
use raspberrypiservice.Prelude.{
  ℕ, ◌+◌, ◌≡◌, refl, true, List, [], ◌∷◌, length, length-append, arith,
}
use raspberrypiservice.Common.Define.{DbusCommand}
use raspberrypiservice.Common.EventQueue.{push_event}
use raspberrypiservice.Recordmgr.AlsaHelper.{capture_once}
use raspberrypiservice.Recordmgr.RecordWorker.{
  Phase, Noti, Worker, Answers, Action, filter_event, threads, wakes, starts, stops, cancels,
  shuts_down, thread_step, act, run_actions, init_worker,
}

-- 1 for a notification of the thread that a recording has begun, that one has ended, or that a file
-- was saved.
abbrev pub begins : Noti → ℕ
begins (Noti.noti true DbusCommand.start_record_noti true _) = 1
begins _ = 0

abbrev pub ends : Noti → ℕ
ends (Noti.noti true DbusCommand.stop_record_noti _ _) = 1
ends (Noti.noti true DbusCommand.cancel_record_noti _ _) = 1
ends _ = 0

abbrev pub saves : Noti → ℕ
saves (Noti.noti true DbusCommand.stop_record_noti true _) = 1
saves _ = 0

abbrev pub count : (Noti → ℕ) → List Noti → ℕ
count kind [] = 0
count kind (n ∷ ns) = kind n + count kind ns

-- 1 while a recording has begun and its end has not been announced.
abbrev pub in_session : Phase → ℕ
in_session Phase.capturing = 1
in_session (Phase.ending e) = 1
in_session _ = 0

pub record IsBalanced (w : Worker) : Type 0 where
  pub sessions : count begins w.sent ≡ count ends w.sent + in_session w.phase
  pub files_announced : length w.files ≡ count saves w.sent
  pub files_passed_on : length w.queue.event_list ≡ count saves w.sent

step-IsBalanced :
    (a : Answers) (p : Phase) (w : Worker)
    → w.phase ≡ p
    → IsBalanced w
    → IsBalanced (thread_step a p w)
unfolding thread_step capture_once push_event
step-IsBalanced a Phase.loop_top w e b = ground arith
step-IsBalanced a (Phase.ending err) w e b =
    ground (arith, length-append w.queue.event_list (filter_event a ∷ []))
step-IsBalanced a _ w e b = ground arith

act-IsBalanced : (a : Action) (w : Worker) → IsBalanced w → IsBalanced (act a w)
unfolding act
act-IsBalanced (threads a) w b = step-IsBalanced a w.phase w refl b
act-IsBalanced wakes w b = ground arith
act-IsBalanced starts w b = ground arith
act-IsBalanced stops w b = ground arith
act-IsBalanced cancels w b = ground arith
act-IsBalanced shuts_down w b = ground arith

run-IsBalanced :
    (actions : List Action) (w : Worker) → IsBalanced w → IsBalanced (run_actions actions w)
run-IsBalanced [] w b = b
run-IsBalanced (a ∷ rest) w b = run-IsBalanced rest (act a w) (act-IsBalanced a w b)

init_worker-IsBalanced : IsBalanced init_worker
init_worker-IsBalanced = omega arith

-- Whatever the other threads call and the libraries answer, every recording that is announced as
-- begun is announced as ended exactly once, after which the thread leaves its session, and the
-- success of a stop is announced exactly once for each file written, which is passed on to be
-- filtered.
pub run_actions-IsBalanced : (actions : List Action) → IsBalanced (run_actions actions init_worker)
run_actions-IsBalanced actions = run-IsBalanced actions init_worker init_worker-IsBalanced
