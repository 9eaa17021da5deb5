-- ===== src/Recordmgr/RecordWorker.antt =====
-- recordmgr/src/Thread/RecordWorker.cpp: the thread that records, and the calls that the main thread
-- makes of it. A call is one step; the thread's own work is cut where another thread can see or
-- change the state, the flags or what has been sent. The wait on `cv_` is three phases: the test of
-- its condition, the time between a test that failed and the sleep, in which the thread holds the
-- mutex, and the sleep, which a notification or a spurious wake-up ends.
pub mod Balance
pub mod Shutdown
pub mod LostStart
pub mod Session
use Prim.Native.String.{◌++◌ as str_append}
use raspberrypiservice.Prelude.{
  ℕ, Bool, true, false, ◌&&◌, ◌||◌, not, String, List, [], ◌∷◌, Option, none, some, ℤ,
  if◌then◌else◌,
}
use raspberrypiservice.Common.Define.{DbusCommand}
use raspberrypiservice.Common.Event.{Payload, Event, payload_event}
use raspberrypiservice.Common.EventQueue.{EventQueue, push_event}
use raspberrypiservice.Recordmgr.EventTypeId.{EventTypeId}
use raspberrypiservice.Recordmgr.AlsaHelper.{
  ReadResult, capture_once, is_audio_buffer_empty, save_wav_file,
}

pub data State : Type 0 where
  idle recording : State

-- Where the thread is: at the top of its loop, before the test of the wait's condition, after a test
-- that failed, asleep, after the wait, in `initAlsa`, after its failure was reported, in the capture
-- loop, after that loop, after the end was reported, or gone.
pub data Phase : Type 0 where
  loop_top waiting tested sleeping woken initializing failing capturing : Phase
  ending : (is_capture_error : Bool) → Phase
  cleaning exited : Phase

-- A `sendMessageNoti`, by the thread or by a call of the main thread.
pub data Noti : Type 0 where
  noti : (by_thread : Bool) (command : DbusCommand) (is_success : Bool) (message : String) → Noti

-- `sent` and `files` list the notifications and the files written, the newest first.
pub record Worker : Type 0 where
  pub state : State
  pub cancel_requested : Bool
  pub running : Bool
  pub phase : Phase
  pub audio_buffer : List ℕ
  pub files : List (String × List ℕ)
  pub sent : List Noti
  pub queue : EventQueue (Event EventTypeId)

-- What the sound library, the clock and the file system answer to one step of the thread.
pub record Answers : Type 0 where
  pub init_alsa : Bool
  pub duration_exceeded : Bool
  pub read : ReadResult
  pub opens : Bool
  pub path : String
  pub sample_rate : ℕ
  pub duration_sec : ℤ

abbrev pub is_recording : State → Bool
is_recording State.idle = false
is_recording State.recording = true

abbrev send : Bool → DbusCommand → Bool → String → Worker → Worker
send by cmd ok message w = record w { sent = Noti.noti by cmd ok message ∷ w.sent }

-- `cv_.notify_one()`: a thread that sleeps goes back to the test of its condition.
abbrev notified : Phase → Phase
notified Phase.sleeping = Phase.waiting
notified p = p

abbrev notify_one : Worker → Worker
notify_one w = record w { phase = notified w.phase }

-- The lock of `mtx_`: a thread that holds it after its test goes to sleep before a caller has it.
abbrev released : Phase → Phase
released Phase.tested = Phase.sleeping
released p = p

abbrev lock : Worker → Worker
lock w = record w { phase = released w.phase }

abbrev start_locked : Worker → Worker
start_locked w =
    if is_recording w.state
    then send false DbusCommand.start_record_noti false "Recording is already in progress." w
    else notify_one (record w { cancel_requested = false; state = State.recording })

abbrev pub start_recording : Worker → Worker
start_recording w = start_locked (lock w)

abbrev pub stop_recording : Worker → Worker
stop_recording w =
    if is_recording w.state
    then record w { state = State.idle }
    else send false DbusCommand.stop_record_noti false "No recording is in progress." w

abbrev pub cancel_recording : Worker → Worker
cancel_recording w =
    if is_recording w.state
    then record w { cancel_requested = true; state = State.idle }
    else send false DbusCommand.cancel_record_noti false "No recording is in progress." w

-- It takes no lock.
abbrev pub stop : Worker → Worker
stop w = notify_one (record w { running = false; state = State.idle })

-- One pass of the capture loop, with whether it goes on.
abbrev capture_step : Answers → Worker → Worker
capture_step a w =
    if not (w.running && is_recording w.state)
    then record w { phase = Phase.ending false }
    else if a.duration_exceeded
    then record w { phase = Phase.ending false }
    else let (goes_on, buffer) = capture_once a.read w.audio_buffer in
      record w {
        audio_buffer = buffer;
        phase = if goes_on then Phase.capturing else Phase.ending true;
      }

abbrev pub filter_event : Answers → Event EventTypeId
filter_event a = payload_event EventTypeId.filter_wav_file (Payload.wav a.path a.duration_sec)

-- The WAV file was saved: it is announced, and passed on to be filtered.
abbrev saved : Answers → List ℕ → Worker → Worker
saved a bytes w =
    let message = str_append "WAV file saved: " a.path in
    let w' = send true DbusCommand.stop_record_noti true message w in
    record w' {
      files = (a.path, bytes) ∷ w.files;
      queue = (push_event (some (filter_event a)) w.queue).0;
    }

abbrev saved_or_not : Answers → Option (List ℕ) → Worker → Worker
saved_or_not a none w = send true DbusCommand.stop_record_noti false "Failed to save WAV file." w
saved_or_not a (some bytes) w = saved a bytes w

-- The end of a session: what is reported, and whether the audio is saved.
abbrev end_session : Answers → Bool → Worker → Worker
end_session a is_capture_error w =
    if is_capture_error
    then send true DbusCommand.stop_record_noti false "Recording stopped due to capture error." w
    else if w.cancel_requested
    then send true DbusCommand.cancel_record_noti true "Recording canceled by user." w
    else if is_audio_buffer_empty w.audio_buffer
    then send true DbusCommand.stop_record_noti false "No audio data captured." w
    else saved_or_not a (save_wav_file a.opens a.sample_rate w.audio_buffer) w

unfoldable pub thread_step : Answers → Phase → Worker → Worker
unfolding capture_once push_event
thread_step a Phase.loop_top w = record w {
  phase = if w.running then Phase.waiting else Phase.exited;
}
thread_step a Phase.waiting w = record w {
  phase = if is_recording w.state || not w.running then Phase.woken else Phase.tested;
}
thread_step a Phase.tested w = record w { phase = Phase.sleeping }
thread_step a Phase.sleeping w = w
thread_step a Phase.woken w =
    if w.running
    then record w { audio_buffer = []; phase = Phase.initializing }
    else record w { phase = Phase.exited }
thread_step a Phase.initializing w =
    if a.init_alsa
    then send true DbusCommand.start_record_noti true "Recording started"
        (record w { phase = Phase.capturing })
    else send true DbusCommand.start_record_noti false "ALSA initialization failed"
        (record w { phase = Phase.failing })
thread_step a Phase.failing w = record w { state = State.idle; phase = Phase.loop_top }
thread_step a Phase.capturing w = capture_step a w
thread_step a (Phase.ending e) w = end_session a e (record w { phase = Phase.cleaning })
thread_step a Phase.cleaning w = record w { state = State.idle; phase = Phase.loop_top }
thread_step a Phase.exited w = w

-- A step of the thread, a spurious wake-up of it, or a call by another thread.
pub data Action : Type 0 where
  threads : Answers → Action
  wakes starts stops cancels shuts_down : Action

unfoldable pub act : Action → Worker → Worker
unfolding thread_step
act (threads a) w = thread_step a w.phase w
act wakes w = notify_one w
act starts w = start_recording w
act stops w = stop_recording w
act cancels w = cancel_recording w
act shuts_down w = stop w

abbrev pub run_actions : List Action → Worker → Worker
run_actions [] w = w
run_actions (a ∷ rest) w = run_actions rest (act a w)

-- The worker when its thread has been started.
abbrev pub init_worker : Worker
init_worker = record {
  state = State.idle;
  cancel_requested = false;
  running = true;
  phase = Phase.loop_top;
  audio_buffer = [];
  files = [];
  sent = [];
  queue = record { event_list = [] };
}
