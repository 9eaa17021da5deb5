-- ===== src/Recordmgr/Examples.antt =====
-- The record manager on concrete inputs.
use raspberrypiservice.Prelude.{◌≡◌, ◌++◌, refl, ℕ, [], ◌∷◌, List, some, true, false, pos, arith}
use Prim.Native.String.{◌++◌ as str_append}
use raspberrypiservice.Common.Define.{DbusCommand}
use raspberrypiservice.Common.Event.{Event}
use raspberrypiservice.Common.EventQueue.{EventQueue}
use raspberrypiservice.Recordmgr.EventTypeId.{EventTypeId}
use raspberrypiservice.Recordmgr.AlsaHelper.{ReadResult, save_wav_file}
use raspberrypiservice.Recordmgr.AlsaHelper.RoundTrip.{reload, wav, save_wav_file-read_wav}
use raspberrypiservice.Recordmgr.RecordWorker.{
  State, Phase, noti, Worker, Answers, Action, threads, starts, filter_event, act, stop,
  run_actions, init_worker,
}
use raspberrypiservice.Recordmgr.RecordWorker.Balance.{IsBalanced, run_actions-IsBalanced}
use raspberrypiservice.Recordmgr.RecordWorker.Shutdown.{run_thread, run_thread-stop}
use raspberrypiservice.Recordmgr.RecordWorker.LostStart.{start-lost}
use raspberrypiservice.Recordmgr.RecordWorker.Session.{session, waits, all_frames, session-saves}
use raspberrypiservice.Recordmgr.MainWorker.{Manager}
use raspberrypiservice.Recordmgr.MainWorker.Commands.{
  receive_all, rounds, ask_all, receive_all-rounds,
}

-- The samples 1, -1 and 256 at 44.1 kHz.
abbrev samples : List ℕ
samples = 1 ∷ 65535 ∷ 256 ∷ []

save_wav_file-read_wav_example :
    reload (save_wav_file true 44100 samples) ≡ some (wav 42 44100 88200 6 samples)
save_wav_file-read_wav_example =
    save_wav_file-read_wav 44100 1 (65535 ∷ 256 ∷ []) (omega arith) (omega arith) (omega arith)

abbrev answers : Answers
answers = record {
  init_alsa = true;
  duration_exceeded = false;
  read = ReadResult.frames samples;
  opens = true;
  path = "/tmp/record.wav";
  sample_rate = 44100;
  duration_sec = pos 2;
}

abbrev no_events : EventQueue (Event EventTypeId)
no_events = record { event_list = [] }

abbrev recording : List Action
recording = session answers (samples ∷ samples ∷ [])

run_actions-IsBalanced_example : IsBalanced (run_actions (threads answers ∷ recording) init_worker)
run_actions-IsBalanced_example = run_actions-IsBalanced (threads answers ∷ recording)

session-saves_example :
    let w = run_actions recording (waits true (7 ∷ []) [] [] no_events) in
    let begun = noti true DbusCommand.start_record_noti true "Recording started" in
    let message = str_append "WAV file saved: " answers.path in
    let ended = noti true DbusCommand.stop_record_noti true message in
    (bytes : List ℕ) × (save_wav_file true 44100 (all_frames (samples ∷ samples ∷ [])) ≡ some bytes)
    × (w.files ≡ (answers.path, bytes) ∷ [])
    × (w.sent ≡ ended ∷ begun ∷ [])
    × (w.queue.event_list ≡ [] ++ filter_event answers ∷ [])
    × (w.phase ≡ Phase.loop_top)
    × (w.state ≡ State.idle)
session-saves_example =
    session-saves answers (samples ∷ samples ∷ []) 1 (65535 ∷ 256 ∷ samples) true (7 ∷ []) [] []
      no_events refl refl refl

-- A worker in its capture loop.
abbrev busy : Worker
busy = record {
  state = State.recording;
  cancel_requested = false;
  running = true;
  phase = Phase.capturing;
  audio_buffer = samples;
  files = [];
  sent = [];
  queue = record { event_list = [] };
}

-- A worker whose thread has nothing to do and sleeps.
abbrev asleep : Worker
asleep = record busy { state = State.idle; phase = Phase.sleeping }

run_thread-stop_example :
    ((run_thread (answers ∷ answers ∷ answers ∷ answers ∷ answers ∷ []) (stop asleep)).phase
      ≡ Phase.exited)
    × ((run_thread (answers ∷ answers ∷ answers ∷ answers ∷ answers ∷ []) (stop asleep)).state
        ≡ State.idle)
run_thread-stop_example =
    run_thread-stop (answers ∷ answers ∷ answers ∷ answers ∷ answers ∷ []) asleep (omega arith)

-- A worker that has just reported the end of a session.
abbrev reported : Worker
reported = record busy { state = State.idle; phase = Phase.cleaning }

start-lost_example :
    (run_thread (answers ∷ answers ∷ answers ∷ []) (act starts reported)).sent ≡ reported.sent
start-lost_example = start-lost (answers ∷ answers ∷ answers ∷ []) reported refl refl refl

abbrev commands : List DbusCommand
commands = DbusCommand.start_record ∷ DbusCommand.start_record ∷ DbusCommand.stop_record ∷ []

abbrev manager : Manager
manager = record { worker = init_worker; filters = [] }

receive_all-rounds_example :
    rounds 3 (receive_all commands manager)
    ≡ record manager { worker = ask_all commands init_worker }
receive_all-rounds_example = receive_all-rounds commands manager refl
