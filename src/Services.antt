-- ===== src/Services.antt =====
-- A filtered recording on its way from the record manager
-- (recordmgr/src/Thread/MainWorker.cpp) to the core manager (coremgr/src/Thread/DBusReceiver.cpp).
pub mod Meaning
pub mod Signals
pub mod Notifications
mod Examples
mod SignalExamples
use raspberrypiservice.Prelude.{
  ℕ, ◌+◌, ◌^◌, ◌<◌, ◌≡◌, refl, ◌∙◌, ap, Bool, true, false, String, List, [], ◌∷◌, ◌++◌, Option,
  none, some, ℤ, pos, append_assoc, append-nil, sym, arith,
}
use mathlib.Core.Option
use raspberrypiservice.Common.DbusData.{DbusDataInfo, init_info, set_info}
use raspberrypiservice.Common.Event.{Payload, Event, payload_event}
use raspberrypiservice.Common.EventQueue.{EventQueue, push_event}
use raspberrypiservice.Common.Stdlib.{stoi, to_string}
use raspberrypiservice.Common.Stdlib.RoundTrip.{stoi-to_string}
use raspberrypiservice.Coremgr.EventTypeId.{EventTypeId}
use raspberrypiservice.Coremgr.DbusReceiver.{notifications, push_each, handle_message_noti}
use raspberrypiservice.Recordmgr.MainWorker.{Notification, filter_noti}

-- What the core manager has to do about a file: insert it and tell the clients, or tell them of the
-- failure.
abbrev pub file_events : Option String → ℤ → List (Event EventTypeId)
file_events none duration =
    payload_event EventTypeId.filter_wav_file_noti (Payload.noti false "FAILED to save WAV file.")
    ∷ []
file_events (some path) duration =
    payload_event EventTypeId.insert_wav_file (Payload.wav path duration)
    ∷ payload_event EventTypeId.filter_wav_file_noti (Payload.noti true "")
    ∷ []

-- Whether a file was filtered or not, what the record manager sends about it is queued by the core
-- manager as the events that the file calls for, behind those already there: a file with its path
-- and its duration, if that is an `int` that is not negative.
pub filter_noti-file_events :
    (stof : String → Option ℕ) (filtered : Option String) (duration : ℕ)
    (q : EventQueue (Event EventTypeId))
    → duration < 2 ^ 31
    → let n = filter_noti filtered (pos duration) in
      handle_message_noti stof n.command n.is_success n.info q
      ≡ some (record { event_list = q.event_list ++ file_events filtered (pos duration) })
unfolding filter_noti handle_message_noti notifications push_each push_event set_info init_info
filter_noti-file_events stof none duration q h = refl
filter_noti-file_events stof (some path) duration q h =
    let event = λ (d : ℤ). payload_event EventTypeId.insert_wav_file (Payload.wav path d) in
    let noti = payload_event EventTypeId.filter_wav_file_noti (Payload.noti true "") in
    let queued = λ (o : Option ℤ).
      Option.map (λ es. push_each es q) (Option.map (λ d. event d ∷ noti ∷ []) o) in
    ap queued (stoi-to_string (pos duration) h)
    ∙ ap (λ es. some (record { event_list = es }))
        (append_assoc q.event_list (event (pos duration) ∷ []) (noti ∷ []))
