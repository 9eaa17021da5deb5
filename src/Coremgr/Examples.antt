-- ===== src/Coremgr/Examples.antt =====
-- The core manager on concrete inputs.
use raspberrypiservice.Prelude.{
  ◌≡◌, ◌++◌, ◌↔◌, refl, ℕ, [], ◌∷◌, List, Option, none, some, true, false, Bool, String, pos, All,
  str_eq, arith,
}
use raspberrypiservice.Common.Define.{DbusCommand}
use raspberrypiservice.Common.DbusData.{DbusDataInfo}
use raspberrypiservice.Common.Stdlib.{
  is_digit, is_space, skip_spaces, digits_value, in_range, unsigned, signed, stoi,
}
use raspberrypiservice.Common.Event.{Payload, Event, plain_event, payload_event}
use raspberrypiservice.Common.EventQueue.{EventQueue}
use raspberrypiservice.Common.EventQueue.Fifo.{cons_some}
use raspberrypiservice.Coremgr.EventTypeId.{EventTypeId}
use raspberrypiservice.Coremgr.Core.{Core}
use raspberrypiservice.Coremgr.StateView.{
  RecordState, ScanningBtDeviceState, BluetoothPowerState, CallState,
}
use raspberrypiservice.Coremgr.Timer.Table.{find, contains}
use raspberrypiservice.Coremgr.HardwareHandler.Confirmation.{find_id}
use raspberrypiservice.Coremgr.HardwareHandler.Confirmation.Answers.{
  IsRunning, request, answer, request_timer, answer-request,
}
use raspberrypiservice.Coremgr.HardwareHandler.Confirmation.Stale.{
  unanswered, answer-request_twice, answer-unanswered,
}
use raspberrypiservice.Coremgr.MainWorker.{Outside, process_event}
use raspberrypiservice.Coremgr.MainWorker.Payloads.{process_event_ill_typed}
use raspberrypiservice.Coremgr.MainWorker.Frame.{area, KeepsRest, process_event-KeepsRest}
use raspberrypiservice.Coremgr.MainWorker.Commands.{
  Accounts, process_event-Accounts, OneInFlight, run_events, run_events-OneInFlight,
}
use raspberrypiservice.Coremgr.DbusReceiver.{handle_message_noti}
use raspberrypiservice.Coremgr.DbusReceiver.WellTyped.{WellTypedNoti, handle_message_noti-WellTyped}
use raspberrypiservice.Coremgr.WebSocket.{
  JsonLibrary, CommandType, string_to_command, handle_message_from_client,
}
use raspberrypiservice.Coremgr.WebSocket.Commands.{name_of, string_to_command-eq_iff}
use raspberrypiservice.Coremgr.WebSocket.Requests.{
  RequestIfAny, handle_message_from_client-RequestIfAny,
}
use raspberrypiservice.Coremgr.WebSocketSession.{Step, sends, runs, ends, run_session, init_session}
use raspberrypiservice.Coremgr.WebSocketSession.Writes.{IsOrderly, run_session-IsOrderly}

-- A core manager that has just started.
abbrev started : Core
started = record {
  view = record {
    record_state = RecordState.stopped;
    current_temperature = pos 0;
    scanning_btdevice_state = ScanningBtDeviceState.idle;
    bluetooth_power_state = BluetoothPowerState.off;
    call_state = CallState.idle;
  };
  timer_id_map = [];
  timer = record { event_queue_set = true; next_timer_id = 1; timer_table_map = [] };
  db_thread_pool_set = true;
  outbox = [];
}

started-IsRunning : IsRunning started
started-IsRunning = record { timer_well_formed = omega arith; has_queue = refl }

abbrev no_events : EventQueue (Event EventTypeId)
no_events = record { event_list = [] }

abbrev outside : Outside
outside = record {
  now = 100;
  to_int = pos;
  all_records = [];
  inserted = λ path duration. record { id = pos 1; file_path = path; duration_sec = duration };
  removed = λ id. "a.wav";
  exists = λ path. true;
}

answer-request_example :
    let c' = answer true "aa" (request 100 "aa" "123456" started) in
    ((j : ℕ) → find j c'.timer.timer_table_map ≡ find j started.timer.timer_table_map)
    × (find_id "aa" c'.timer_id_map ≡ none)
answer-request_example =
    answer-request 100 "aa" "123456" true started started-IsRunning (omega arith) tt

answer-request_twice_example :
    let c' = answer false "aa" (request 200 "aa" "2" (request 100 "aa" "1" started)) in
    (id : ℕ) × (find id c'.timer.timer_table_map ≡ some (request_timer 100 "aa" id))
answer-request_twice_example =
    answer-request_twice 100 200 "aa" "1" "2" false started started-IsRunning (omega arith)

answer-unanswered_example :
    let c3 = request 40000 "bb" "2" (unanswered 100 30100 "aa" "1" no_events started) in
    let c4 = answer true "aa" c3 in
    (id : ℕ) × (find id c3.timer.timer_table_map ≡ some (request_timer 40000 "bb" id))
    × (find_id "bb" c4.timer_id_map ≡ some id)
    × (contains id c4.timer.timer_table_map ≡ false)
answer-unanswered_example =
    answer-unanswered 100 30100 40000 "aa" "bb" "1" "2" true no_events started started-IsRunning
      (omega arith) (omega arith) refl

abbrev dial : Event EventTypeId
dial = payload_event EventTypeId.dial_call (Payload.call "" "5551" "")

process_event_ill_typed_example :
    process_event outside (some (plain_event EventTypeId.dial_call)) started ≡ started
process_event_ill_typed_example =
    process_event_ill_typed outside (plain_event EventTypeId.dial_call) started refl

process_event-KeepsRest_example :
    KeepsRest (area EventTypeId.dial_call) started (process_event outside (some dial) started)
process_event-KeepsRest_example = process_event-KeepsRest outside dial started

process_event-Accounts_example : Accounts started (process_event outside (some dial) started)
process_event-Accounts_example = process_event-Accounts outside (some dial) started

-- A client asks twice for a record and once for a call.
abbrev requests : List (Outside × Event EventTypeId)
requests =
    (outside, plain_event EventTypeId.start_record)
    ∷ (outside, plain_event EventTypeId.start_record)
    ∷ (outside, dial)
    ∷ []

run_events-OneInFlight_example : OneInFlight started (run_events requests started)
run_events-OneInFlight_example = run_events-OneInFlight requests started (refl, (refl, (refl, tt)))

-- Every text is read as zero degrees.
abbrev stof : String → Option ℕ
stof text = some 0

abbrev info : DbusDataInfo
info type = "12"

handle_message_noti-WellTyped_example :
    (new : List (Event EventTypeId)) × (q' : EventQueue (Event EventTypeId)) × (handle_message_noti
        stof DbusCommand.start_record_noti true info no_events
      ≡ some q')
    × (q'.event_list ≡ [] ++ new)
    × All WellTypedNoti new
unfolding is_digit is_space skip_spaces digits_value in_range unsigned signed stoi
handle_message_noti-WellTyped_example =
    handle_message_noti-WellTyped stof DbusCommand.start_record_noti true info no_events
      (record { temperature_parses = refl; rssi_parses = refl; duration_parses = refl })

string_to_command-eq_iff_example :
    (string_to_command "dial_call" ≡ CommandType.dial_call)
    ↔ ("dial_call" ≡ name_of CommandType.dial_call)
string_to_command-eq_iff_example =
    string_to_command-eq_iff "dial_call" CommandType.dial_call (λ e. cc)

-- JSON of which every text is an object with that command.
data Json : Type 0 where
  object text : String → Json
  empty : Json

abbrev text_of : Json → Option String
text_of (object s) = none
text_of (text s) = some s
text_of empty = none

abbrev has_command : Json → String → Bool
has_command (object s) key = str_eq key "command"
has_command _ key = false

abbrev command_of : Json → String → Json
command_of (object s) key = text s
command_of _ key = empty

abbrev json_library : JsonLibrary
json_library = record {
  Json = Json;
  parse = λ s. some (object s);
  contains = has_command;
  at = command_of;
  value = λ j key. empty;
  is_number = λ j. false;
  is_string = λ j. false;
  get_int = λ j. pos 0;
  get_string = λ j. "";
  as_string = text_of;
}

handle_message_from_client-RequestIfAny_example :
    (o : Option (Event EventTypeId)) × ((handle_message_from_client json_library "start_record"
        no_events).event_list
      ≡ [] ++ cons_some o [])
    × RequestIfAny o
handle_message_from_client-RequestIfAny_example =
    handle_message_from_client-RequestIfAny json_library "start_record" no_events

-- Three messages, of which the second fails.
abbrev writes : List Step
writes = sends "a" ∷ sends "b" ∷ runs ∷ ends false ∷ sends "c" ∷ runs ∷ ends true ∷ []

run_session-IsOrderly_example : IsOrderly ("a" ∷ "b" ∷ "c" ∷ []) (run_session writes init_session)
run_session-IsOrderly_example = run_session-IsOrderly writes
