-- ===== src/Recordmgr/RecordWorker/Session.antt =====
-- A whole recording, from the start to the file.
use raspberrypiservice.Prelude.{
  ℕ, ◌≡◌, refl, ◌∙◌, sym, ap, Bool, true, false, String, List, [], ◌∷◌, ◌++◌, some, append_assoc,
  append-nil,
}
use Prim.Native.String.{◌++◌ as str_append}
use raspberrypiservice.Common.Define.{DbusCommand}
use raspberrypiservice.Common.Event.{Event}
use raspberrypiservice.Common.EventQueue.{EventQueue, push_event}
use raspberrypiservice.Recordmgr.EventTypeId.{EventTypeId}
use raspberrypiservice.Recordmgr.AlsaHelper.{ReadResult, capture_once, save_wav_file}
use raspberrypiservice.Recordmgr.AlsaHelper.RoundTrip.{save_wav_file-some}
use raspberrypiservice.Recordmgr.RecordWorker.{
  State, Phase, Noti, noti, Worker, Answers, Action, threads, starts, stops, filter_event,
  thread_step, act, run_actions,
}

abbrev pub all_frames : List (List ℕ) → List ℕ
all_frames [] = []
all_frames (f ∷ fs) = f ++ all_frames fs

-- Sound is read, in time.
abbrev reads : Answers → List ℕ → Action
reads a f = threads (record a { duration_exceeded = false; read = ReadResult.frames f })

abbrev pub captures : Answers → List (List ℕ) → List Action → List Action
captures a [] rest = rest
captures a (f ∷ fs) rest = reads a f ∷ captures a fs rest

abbrev session_end : Answers → List Action
session_end a = stops ∷ threads a ∷ threads a ∷ threads a ∷ []

-- The main thread starts a recording, sound is read, and the main thread stops it.
abbrev pub session : Answers → List (List ℕ) → List Action
session a fs = starts ∷ threads a ∷ threads a ∷ threads a ∷ captures a fs (session_end a)

-- A worker asleep at the wait.
abbrev pub waits :
    Bool → List ℕ → List (String × List ℕ) → List Noti → EventQueue (Event EventTypeId) → Worker
waits cancel buffer files sent queue = record {
  state = State.idle;
  cancel_requested = cancel;
  running = true;
  phase = Phase.sleeping;
  audio_buffer = buffer;
  files = files;
  sent = sent;
  queue = queue;
}

abbrev capturing :
    List ℕ → List (String × List ℕ) → List Noti → EventQueue (Event EventTypeId) → Worker
capturing buffer files sent queue = record {
  state = State.recording;
  cancel_requested = false;
  running = true;
  phase = Phase.capturing;
  audio_buffer = buffer;
  files = files;
  sent = sent;
  queue = queue;
}

run-captures :
    (a : Answers) (fs : List (List ℕ)) (rest : List Action) (buffer : List ℕ)
    (files : List (String × List ℕ)) (sent : List Noti) (queue : EventQueue (Event EventTypeId))
    → run_actions (captures a fs rest) (capturing buffer files sent queue)
      ≡ run_actions rest (capturing (buffer ++ all_frames fs) files sent queue)
unfolding act thread_step capture_once
run-captures a [] rest buffer files sent queue =
    ap (λ b. run_actions rest (capturing b files sent queue)) (sym (append-nil buffer))
run-captures a (f ∷ fs) rest buffer files sent queue =
    run-captures a fs rest (buffer ++ f) files sent queue
    ∙ ap (λ b. run_actions rest (capturing b files sent queue))
        (append_assoc buffer f (all_frames fs))

-- The worker after a file was saved.
abbrev after_save :
    Answers
    → List ℕ
    → List ℕ
    → List (String × List ℕ)
    → List Noti
    → EventQueue (Event EventTypeId)
    → Worker
after_save a bytes buffer files sent queue = record {
  state = State.idle;
  cancel_requested = false;
  running = true;
  phase = Phase.loop_top;
  audio_buffer = buffer;
  files = (a.path, bytes) ∷ files;
  sent = noti true DbusCommand.stop_record_noti true (str_append "WAV file saved: " a.path) ∷ sent;
  queue = record { event_list = queue.event_list ++ filter_event a ∷ [] };
}

run-end :
    (a : Answers) (s : ℕ) (ss bytes : List ℕ) (files : List (String × List ℕ)) (sent : List Noti)
    (queue : EventQueue (Event EventTypeId))
    → save_wav_file a.opens a.sample_rate (s ∷ ss) ≡ some bytes
    → run_actions (session_end a) (capturing (s ∷ ss) files sent queue)
      ≡ after_save a bytes (s ∷ ss) files sent queue
unfolding act thread_step push_event
run-end a s ss bytes files sent queue e = rw e refl

run-begin :
    (a : Answers) (rest : List Action) (cancel : Bool) (buffer : List ℕ)
    (files : List (String × List ℕ)) (sent : List Noti) (queue : EventQueue (Event EventTypeId))
    → a.init_alsa ≡ true
    → run_actions
        (starts ∷ threads a ∷ threads a ∷ threads a ∷ rest)
        (waits cancel buffer files sent queue)
      ≡ run_actions rest (
          capturing [] files
            (noti true DbusCommand.start_record_noti true "Recording started" ∷ sent)
            queue)
unfolding act thread_step
run-begin a rest cancel buffer files sent queue ok = rw ok refl

run-session :
    (a : Answers) (fs : List (List ℕ)) (s : ℕ) (ss bytes : List ℕ) (cancel : Bool) (buffer : List ℕ)
    (files : List (String × List ℕ)) (sent : List Noti) (queue : EventQueue (Event EventTypeId))
    → a.init_alsa ≡ true
    → all_frames fs ≡ s ∷ ss
    → save_wav_file a.opens a.sample_rate (s ∷ ss) ≡ some bytes
    → run_actions (session a fs) (waits cancel buffer files sent queue)
      ≡ after_save a bytes
          (s ∷ ss)
          files
          (noti true DbusCommand.start_record_noti true "Recording started" ∷ sent)
          queue
run-session a fs s ss bytes cancel buffer files sent queue ok heard e =
    let begun = noti true DbusCommand.start_record_noti true "Recording started" in
    run-begin a (captures a fs (session_end a)) cancel buffer files sent queue ok
    ∙ run-captures a fs (session_end a) [] files (begun ∷ sent) queue
    ∙ ap (λ b. run_actions (session_end a) (capturing b files (begun ∷ sent) queue)) heard
    ∙ run-end a s ss bytes files (begun ∷ sent) queue e

-- A recording during which sound was read, whose device opens and whose file opens, ends with one
-- new file, made of exactly the frames read since the start, in order; its begin and its end are
-- announced, its file is passed on to be filtered, and the thread goes back to the top of its loop.
pub session-saves :
    (a : Answers) (fs : List (List ℕ)) (s : ℕ) (ss : List ℕ) (cancel : Bool) (buffer : List ℕ)
    (files : List (String × List ℕ)) (sent : List Noti) (queue : EventQueue (Event EventTypeId))
    → a.init_alsa ≡ true
    → a.opens ≡ true
    → all_frames fs ≡ s ∷ ss
    → let w = run_actions (session a fs) (waits cancel buffer files sent queue) in
      let begun = noti true DbusCommand.start_record_noti true "Recording started" in
      let message = str_append "WAV file saved: " a.path in
      let ended = noti true DbusCommand.stop_record_noti true message in
      (bytes : List ℕ) × (save_wav_file true a.sample_rate (all_frames fs) ≡ some bytes)
      × (w.files ≡ (a.path, bytes) ∷ files)
      × (w.sent ≡ ended ∷ begun ∷ sent)
      × (w.queue.event_list ≡ queue.event_list ++ filter_event a ∷ [])
      × (w.phase ≡ Phase.loop_top)
      × (w.state ≡ State.idle)
session-saves a fs s ss cancel buffer files sent queue ok opens heard =
    let (bytes, e) = save_wav_file-some a.sample_rate s ss in
    let saved : save_wav_file a.opens a.sample_rate (s ∷ ss) ≡ some bytes = rw opens e in
    let done = run-session a fs s ss bytes cancel buffer files sent queue ok heard saved in
    (bytes, rw heard e, rw done refl, rw done refl, rw done refl, rw done refl, rw done refl)
