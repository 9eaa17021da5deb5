-- ===== src/Recordmgr/RecordWorker/LostStart.antt =====
-- A start between the report that a session has ended and the end of the session.
use raspberrypiservice.Prelude.{◌≡◌, refl, Bool, true, false, List, [], ◌∷◌, ◌∙◌, arith}
use raspberrypiservice.Recordmgr.RecordWorker.{
  State, Phase, Worker, Answers, thread_step, act, start_recording, starts,
}
use raspberrypiservice.Recordmgr.RecordWorker.Shutdown.{run_thread}

-- The thread is at the end of a session, or on its way to the wait with nothing to do.
is_quiet : Phase → State → Bool
is_quiet Phase.cleaning s = true
is_quiet Phase.loop_top State.idle = true
is_quiet Phase.waiting State.idle = true
is_quiet Phase.tested State.idle = true
is_quiet Phase.sleeping State.idle = true
is_quiet _ s = false

thread_step-is_quiet :
    (a : Answers) (p : Phase) (w : Worker)
    → w.phase ≡ p
    → is_quiet p w.state ≡ true
    → w.running ≡ true
    → (is_quiet (thread_step a p w).phase (thread_step a p w).state ≡ true)
      × ((thread_step a p w).running ≡ true)
      × ((thread_step a p w).sent ≡ w.sent)
unfolding thread_step is_quiet
thread_step-is_quiet a Phase.loop_top w e q r = ground arith
thread_step-is_quiet a _ w e q r = ground arith

run_thread-is_quiet :
    (answers : List Answers) (w : Worker)
    → is_quiet w.phase w.state ≡ true
    → w.running ≡ true
    → (run_thread answers w).sent ≡ w.sent
unfolding act
run_thread-is_quiet [] w q r = refl
run_thread-is_quiet (a ∷ rest) w q r =
    let (q', r', same) = thread_step-is_quiet a w.phase w refl q r in
    run_thread-is_quiet rest (thread_step a w.phase w) q' r' ∙ same

-- A start that comes after the end of a session that a client stopped or cancelled was reported,
-- so that the state is idle already, and before the thread sets the state back, is not refused and
-- is never carried out: however long the thread runs with no other call, nothing is sent, neither
-- that a recording has begun nor that it could not begin.
pub start-lost :
    (answers : List Answers) (w : Worker)
    → w.phase ≡ Phase.cleaning
    → w.state ≡ State.idle
    → w.running ≡ true
    → (run_thread answers (act starts w)).sent ≡ w.sent
unfolding act is_quiet
start-lost answers w p s r =
    let started = start_recording w in
    let same : started.sent ≡ w.sent = ground arith in
    run_thread-is_quiet answers started (ground arith) (ground arith) ∙ same
