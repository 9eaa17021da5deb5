-- ===== src/Recordmgr/RecordWorker/Shutdown.antt =====
-- The end of the thread after `stop`.
use raspberrypiservice.Prelude.{ℕ, ◌-◌, ◌≤◌, ◌≡◌, refl, ◌∙◌, false, List, [], ◌∷◌, length, arith}
use raspberrypiservice.Recordmgr.AlsaHelper.{capture_once}
use raspberrypiservice.Recordmgr.RecordWorker.{
  State, Phase, Worker, Answers, thread_step, act, threads, stop,
}

-- The thread's steps alone.
abbrev pub run_thread : List Answers → Worker → Worker
run_thread [] w = w
run_thread (a ∷ rest) w = run_thread rest (act (threads a) w)

-- The steps that a thread which is to stop still takes, at most.
abbrev steps_left : Phase → ℕ
steps_left Phase.initializing = 5
steps_left Phase.capturing = 4
steps_left (Phase.ending e) = 3
steps_left Phase.cleaning = 2
steps_left Phase.failing = 2
steps_left Phase.waiting = 2
steps_left Phase.loop_top = 1
steps_left Phase.tested = 1
steps_left Phase.woken = 1
steps_left Phase.sleeping = 0
steps_left Phase.exited = 0

-- Where a thread ends that stops in a phase: a sleep without a notification does not end.
abbrev pub last_phase : Phase → Phase
last_phase Phase.tested = Phase.sleeping
last_phase Phase.sleeping = Phase.sleeping
last_phase _ = Phase.exited

record IsStopping (w : Worker) : Type 0 where
  not_running : w.running ≡ false
  idle : w.state ≡ State.idle

-- One step of a thread that is to stop.
record Nears (p : Phase) (w : Worker) : Type 0 where
  stopping : IsStopping w
  same_end : last_phase w.phase ≡ last_phase p
  nearer : steps_left w.phase ≤ steps_left p - 1

thread_step-Nears :
    (a : Answers) (p : Phase) (w : Worker)
    → w.phase ≡ p
    → IsStopping w
    → Nears p (thread_step a p w)
unfolding thread_step capture_once
thread_step-Nears a Phase.loop_top w e h = ground arith
thread_step-Nears a _ w e h = ground arith

steps_left-last_phase : (p : Phase) → steps_left p ≤ 0 → p ≡ last_phase p
steps_left-last_phase Phase.exited h = refl
steps_left-last_phase Phase.sleeping h = refl
steps_left-last_phase _ h = absurd (omega arith)

run_thread-last_phase :
    (answers : List Answers) (w : Worker)
    → IsStopping w
    → steps_left w.phase ≤ length answers
    → ((run_thread answers w).phase ≡ last_phase w.phase)
      × ((run_thread answers w).state ≡ State.idle)
unfolding act
run_thread-last_phase [] w h le = (steps_left-last_phase w.phase le, h.idle)
run_thread-last_phase (a ∷ rest) w h le =
    let step = thread_step-Nears a w.phase w refl h in
    let later =
      run_thread-last_phase rest (thread_step a w.phase w) step.stopping
        (omega (arith, le, step.nearer)) in
    (later.0 ∙ step.same_end, later.1)

steps_left-le : (p : Phase) → steps_left p ≤ 5
steps_left-le Phase.exited = omega arith
steps_left-le _ = omega arith

-- Where the thread ends after `stop` is called in a phase.
abbrev pub after_stop : Phase → Phase
after_stop Phase.tested = Phase.sleeping
after_stop _ = Phase.exited

last_phase-stop : (p : Phase) (w : Worker) → w.phase ≡ p → last_phase (stop w).phase ≡ after_stop p
last_phase-stop Phase.exited w e = ground arith
last_phase-stop _ w e = ground arith

-- Whatever the libraries answer after `stop`, five steps of the thread later, with no other call and
-- no spurious wake-up, the state is idle and the thread has left its function, also if it slept or
-- was recording when `stop` was called; only if it was between a failed test of its wait's condition
-- and its sleep, the notification is lost and it sleeps, however many steps it is given.
pub run_thread-stop :
    (answers : List Answers) (w : Worker)
    → 5 ≤ length answers
    → ((run_thread answers (stop w)).phase ≡ after_stop w.phase)
      × ((run_thread answers (stop w)).state ≡ State.idle)
run_thread-stop answers w h =
    let bound = steps_left-le (stop w).phase in
    let (phase, state) =
      run_thread-last_phase answers (stop w) (record { not_running = refl; idle = refl })
        (omega (arith, h, bound)) in
    (phase ∙ last_phase-stop w.phase w refl, state)
