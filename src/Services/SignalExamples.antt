-- ===== src/Services/SignalExamples.antt =====
-- Signals between the managers on concrete inputs.
use raspberrypiservice.Prelude.{◌≡◌, refl, ◌++◌, ℕ, true, String, List, [], ◌∷◌, Option, some, pos}
use raspberrypiservice.Common.Define.{DbusCommand}
use raspberrypiservice.Common.DbusData.{DbusDataType, DbusDataInfo}
use raspberrypiservice.Common.Event.{Event, plain_event, payload_event, Payload}
use raspberrypiservice.Common.Dbus.Libdbus.{Item}
use raspberrypiservice.Common.Dbus.Memory.{MemoryMessage, memory, memory-IsDocumented}
use raspberrypiservice.Common.Dbus.Receiver.{Dispatched, received_message}
use raspberrypiservice.Common.Dbus.Sender.{
  c_str, data_texts, make_msg_internal, append_array, append_strings, make_msg_noti_internal,
}
use raspberrypiservice.Common.Dbus.RoundTrip.{HasNoNull, received_message-make_msg_noti_internal}
use raspberrypiservice.Coremgr.EventTypeId.{EventTypeId}
use raspberrypiservice.Coremgr.StateView.{
  RecordState, ScanningBtDeviceState, BluetoothPowerState, CallState,
}
use raspberrypiservice.Coremgr.Core.{Core}
use raspberrypiservice.Coremgr.MainWorker.{Outside}
use raspberrypiservice.Coremgr.MainWorker.Commands.{run_events}
use raspberrypiservice.Coremgr.MainWorker.Sent.{AllMade, run_events-AllMade}
use raspberrypiservice.Coremgr.CmSenderFactory.{
  make_msg, make_msg_noti, make_msg_to_record, make_msg_noti_to_hardware,
}
use raspberrypiservice.Hardwaremgr.EventTypeId.{EventTypeId as HardwareEventTypeId}
use raspberrypiservice.Hardwaremgr.Hardware.{Answer, Bus, Hardware}
use raspberrypiservice.Hardwaremgr.MainWorker.{Parts, Happening, event, run}
use raspberrypiservice.Services.Notifications.{AllAccepted, run-AllAccepted}
use raspberrypiservice.Services.Meaning.{meaning, meaning_noti}
use raspberrypiservice.Services.Signals.{
  HardwareQueue, RecordQueue, hardware_receive, Arrives, Arrives-make_msg,
  hardware_receive-make_msg_noti,
}

abbrev hardware : HardwareQueue
hardware = record { event_list = [] }

abbrev record_manager : RecordQueue
record_manager = record { event_list = [] }

abbrev start_record_signal : MemoryMessage
start_record_signal = record {
  path = "/com/example/recordmanager";
  interface = "com.example.recordmanager.interface";
  name = "RecordSignal";
  args = Item.int32 (pos 42) ∷ [];
}

Arrives-make_msg_example :
    Arrives memory (meaning DbusCommand.start_record) start_record_signal hardware record_manager
unfolding make_msg make_msg_to_record make_msg_internal
Arrives-make_msg_example =
    Arrives-make_msg memory memory-IsDocumented DbusCommand.start_record start_record_signal
      hardware record_manager refl

-- The data of a command for a device.
abbrev info : DbusDataInfo
info DbusDataType.bt_device_address = "AA:BB"
info _ = ""

info_HasNoNull : (k : DbusDataType) → HasNoNull (info k)
info_HasNoNull DbusDataType.bt_device_address = search
info_HasNoNull _ = tt

abbrev pair_signal : MemoryMessage
pair_signal = record {
  path = "/com/example/hardwaremanager";
  interface = "com.example.hardwaremanager.interface";
  name = "HardwareSignal";
  args = Item.int32 (pos 6) ∷ Item.boolean true ∷ Item.strings (data_texts memory info) ∷ [];
}

hardware_receive-make_msg_noti_example :
    (e : Event _) × (meaning_noti DbusCommand.pair_btdevice info ≡ some e)
    × (hardware_receive memory pair_signal hardware ≡ record { event_list = [] ++ e ∷ [] })
unfolding make_msg_noti make_msg_noti_to_hardware make_msg_noti_internal append_array append_strings
    c_str
hardware_receive-make_msg_noti_example =
    hardware_receive-make_msg_noti memory memory-IsDocumented DbusCommand.pair_btdevice true info
      pair_signal hardware info_HasNoNull refl

received_message-make_msg_noti_internal_example :
    received_message memory "com.example.hardwaremanager.interface" "HardwareSignal" pair_signal
    ≡ Dispatched.message_noti (some DbusCommand.pair_btdevice) true info
unfolding make_msg_noti_internal append_array append_strings c_str
received_message-make_msg_noti_internal_example =
    received_message-make_msg_noti_internal memory memory-IsDocumented
      "/com/example/hardwaremanager" "com.example.hardwaremanager.interface" "HardwareSignal"
      DbusCommand.pair_btdevice true info pair_signal info_HasNoNull refl

abbrev started : Core
started = record {
  view = record {
    record_state = RecordState.stopped;
    current_temperature = pos 0;
    scanning_btdevice_state = ScanningBtDeviceState.idle;
    bluetooth_power_state = BluetoothPowerState.off;
    call_state = CallState.idle;
  };
  timer_id_map = [];
  timer = record { event_queue_set = true; next_timer_id = 1; timer_table_map = [] };
  db_thread_pool_set = true;
  outbox = [];
}

abbrev outside : Outside
outside = record {
  now = 100;
  to_int = pos;
  all_records = [];
  inserted = λ path duration. record { id = pos 1; file_path = path; duration_sec = duration };
  removed = λ id. "a.wav";
  exists = λ path. true;
}

abbrev requests : List (Outside × Event EventTypeId)
requests =
    (outside, plain_event EventTypeId.start_record)
    ∷ (outside, payload_event EventTypeId.pair_btdevice (Payload.bluetooth_device_address "AA:BB"))
    ∷ []

run_events-AllMade_example : AllMade memory (run_events requests started).outbox
run_events-AllMade_example = run_events-AllMade memory requests started refl

-- A BlueZ that answers every call with an error, and a hardware manager with an adapter.
abbrev bluez : Bus
bluez cs c = Answer.failed "Not ready"

abbrev with_adapter : Hardware
with_adapter = record {
  adapter_path = "/org/bluez/hci0";
  is_initialized = true;
  modem_path = "";
  active_call_paths = [];
  phonebook = [];
  pending_confirmations = [];
  calls = [];
  sent = [];
  replies = [];
}

abbrev all_parts : Parts
all_parts = record { bluez_dbus = true; ofono_dbus = true; agent = true }

abbrev happenings : List Happening
happenings =
    event (plain_event HardwareEventTypeId.start_scan_btdevice)
    ∷ event (plain_event HardwareEventTypeId.bluetooth_power_on)
    ∷ []

-- Every text is read as zero degrees.
abbrev stof : String → Option ℕ
stof text = some 0

run-AllAccepted_example :
    AllAccepted memory stof
      (record { event_list = [] })
      (run all_parts bluez happenings with_adapter).1.sent
run-AllAccepted_example =
    run-AllAccepted memory stof (record { event_list = [] }) all_parts bluez happenings with_adapter
      refl refl
