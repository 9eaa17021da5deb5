-- ===== src/Recordmgr/MainWorker.antt =====
-- recordmgr/src/Thread/MainWorker.cpp and recordmgr/src/Thread/DBusReceiver.cpp: commands of the
-- core manager become events, and the main thread gives them to the worker or filters a file in a
-- thread of its own. `AudioFilter::applyFilter` and the file system are parameters.
pub mod Commands
use raspberrypiservice.Prelude.{
  ℕ, Bool, true, false, not, String, List, [], ◌∷◌, Option, none, some, ℤ, str_eq, if◌then◌else◌,
}
use raspberrypiservice.Common.Define.{DbusCommand}
use raspberrypiservice.Common.DbusData.{DbusDataType, DbusDataInfo, init_info, set_info}
use raspberrypiservice.Common.Stdlib.{to_string}
use raspberrypiservice.Common.DbusData.{DbusDataType, DbusDataInfo, init_info, set_info}
use raspberrypiservice.Common.Event.{Payload, Event, plain_event}
use raspberrypiservice.Common.EventQueue.{EventQueue, push_event, pop_event, has_event}
use raspberrypiservice.Recordmgr.EventTypeId.{EventTypeId}
use raspberrypiservice.Recordmgr.RecordWorker.{
  Worker, start_recording, stop_recording, cancel_recording,
}

-- `DBusReceiver::handleMessage`; `handleMessageNoti` does nothing.
abbrev received : EventTypeId → EventQueue (Event EventTypeId) → EventQueue (Event EventTypeId)
received id q = (push_event (some (plain_event id)) q).0

unfoldable pub handle_message :
    DbusCommand → EventQueue (Event EventTypeId) → EventQueue (Event EventTypeId)
unfolding push_event
handle_message DbusCommand.start_record q = received EventTypeId.start_record q
handle_message DbusCommand.stop_record q = received EventTypeId.stop_record q
handle_message DbusCommand.cancel_record q = received EventTypeId.cancel_record q
handle_message _ q = q

-- The worker, and the files that threads have been started for, the newest first.
pub record Manager : Type 0 where
  pub worker : Worker
  pub filters : List (String × ℤ)

abbrev filter_path : String → ℤ → Manager → Manager
filter_path path duration m =
    if str_eq path "" then m else record m { filters = (path, duration) ∷ m.filters }

unfoldable pub process_filter_wav_file_event : Option Payload → Manager → Manager
process_filter_wav_file_event (some (Payload.wav path duration)) m = filter_path path duration m
process_filter_wav_file_event _ m = m

pub record Notification : Type 0 where
  pub command : DbusCommand
  pub is_success : Bool
  pub info : DbusDataInfo

-- What the thread of a file sends: `filtered` is the path that `applyFilter` has written, if it
-- returned true.
unfoldable pub filter_noti : (filtered : Option String) → ℤ → Notification
filter_noti none duration = record {
  command = DbusCommand.filter_wav_file_noti;
  is_success = false;
  info = set_info DbusDataType.message "FAILED to save WAV file." init_info;
}
filter_noti (some path) duration = record {
  command = DbusCommand.filter_wav_file_noti;
  is_success = true;
  info =
      set_info DbusDataType.wav_file_duration_sec (to_string duration)
        (set_info DbusDataType.wav_file_path path init_info);
}

-- The `switch` of `processEvent`; the first clause is `NONE`, the last one is `default`.
handle : EventTypeId → Option Payload → Manager → Manager
unfolding process_filter_wav_file_event
handle EventTypeId.none_event payload m = m
handle EventTypeId.start_record payload m = record m { worker = start_recording m.worker }
handle EventTypeId.stop_record payload m = record m { worker = stop_recording m.worker }
handle EventTypeId.cancel_record payload m = record m { worker = cancel_recording m.worker }
handle EventTypeId.filter_wav_file payload m = process_filter_wav_file_event payload m
handle _ payload m = m

pub process_event : Option (Event EventTypeId) → Manager → Manager
process_event none m = m
process_event (some e) m = handle e.event_type_id e.payload m

-- One round of `threadFunction`; the queue is the one that the worker pushes to.
pub thread_round : Manager → Manager
unfolding pop_event has_event
thread_round m =
    let (event, q') = pop_event m.worker.queue in
    if has_event m.worker.queue
    then process_event event (record m { worker = record m.worker { queue = q' } })
    else m

-- A message from the bus.
pub receive : DbusCommand → Manager → Manager
unfolding handle_message
receive cmd m = record m { worker = record m.worker { queue = handle_message cmd m.worker.queue } }
