-- ===== src/Hardwaremgr/Examples.antt =====
-- The hardware manager on concrete inputs: a phone with one contact and one call, and a device.
use raspberrypiservice.Prelude.{
  ◌≡◌, refl, ◌+◌, ◌≤◌, ◌++◌, ℕ, ℤ, negsuc, true, false, String, List, [], ◌∷◌, some, All, length,
  str_eq, if◌then◌else◌, arith,
}
use raspberrypiservice.Common.Define.{DbusCommand}
use raspberrypiservice.Hardwaremgr.Hardware.{
  Value, call, Reply, Answer, Bus, Noti, Hardware, notify,
}
use raspberrypiservice.Hardwaremgr.Message.{Argument, Kind, Message}
use raspberrypiservice.Hardwaremgr.BluezDbus.Requests.{device_address_to_object_path}
use raspberrypiservice.Hardwaremgr.BluezDbus.Reports.{DeviceReports, device_requests-DeviceReports}
use raspberrypiservice.Hardwaremgr.BluetoothAgent.{device_address}
use raspberrypiservice.Hardwaremgr.BluetoothAgent.Answers.{
  Step, calls, answers, run_steps, received, answered, waiting, run_steps-received,
}
use raspberrypiservice.Hardwaremgr.BluetoothWorker.Bluez.{removed_info, device_removed}
use raspberrypiservice.Hardwaremgr.OfonoDbus.Sync.{
  sync_all_ofono_contacts, sync_all_ofono_call_history,
}
use raspberrypiservice.Hardwaremgr.OfonoDbus.Calls.{dial_call, answer_call, hangup_call}
use raspberrypiservice.Hardwaremgr.OfonoDbus.Phonebook.{
  learn, IsContact, sync_start, sync_end, sync_all_ofono_contacts-learn,
}
use raspberrypiservice.Hardwaremgr.OfonoDbus.History.{
  IsHistory, history_start, history_end, sync_all_ofono_call_history-at_most,
}
use raspberrypiservice.Hardwaremgr.OfonoDbus.Outcomes.{
  ReportsOnce, HangsUp, call_commands-ReportsOnce,
}
use raspberrypiservice.Hardwaremgr.OfonoDbus.Outcomes as Outcomes
use raspberrypiservice.Hardwaremgr.OfonoDbus.Ringing.{ringing}
use raspberrypiservice.Hardwaremgr.Addresses.{device_address-device_address_to_object_path}
use raspberrypiservice.Hardwaremgr.Gpio.{read_temperature_sensor}
use raspberrypiservice.Hardwaremgr.Gpio.Reading.{
  passed_line, data_line, read_temperature_sensor-to_string,
}

-- The phonebook has one contact, the history one call, and the only call is incoming.
abbrev phone : Bus
phone cs (call service path interface member args) =
    if str_eq path "/contact"
    then Answer.replied
        (Reply.properties (("Name", Value.text "Ann") ∷ ("Mobile", Value.text "0900") ∷ []))
    else if str_eq path "/call"
    then Answer.replied (
        Reply.properties
          (("LineIdentification", Value.text "0900") ∷ ("State", Value.text "incoming") ∷ []))
    else if str_eq member "GetProperties"
    then Answer.replied (Reply.properties (("Contacts", Value.object_paths ("/contact" ∷ [])) ∷ []))
    else if str_eq member "GetHistory"
    then Answer.replied (Reply.paths ("/call" ∷ []))
    else Answer.failed "Not available"

abbrev adapter : String
adapter = "/org/bluez/hci0"

abbrev device : String
device = "AA:BB:CC:00:11:22"

abbrev connected : Hardware
connected = record {
  adapter_path = adapter;
  is_initialized = true;
  modem_path = "/hfp";
  active_call_paths = "/call" ∷ [];
  phonebook = ("0900", "Ann") ∷ [];
  pending_confirmations = [];
  calls = [];
  sent = [];
  replies = [];
}

sync_all_ofono_contacts-learn_example :
    (new : List Noti) × ((sync_all_ofono_contacts "/hfp" phone connected).sent
      ≡ sync_end ∷ new ++ sync_start ∷ [])
    × ((sync_all_ofono_contacts "/hfp" phone connected).phonebook ≡ learn new [])
    × All IsContact new
sync_all_ofono_contacts-learn_example = sync_all_ofono_contacts-learn "/hfp" phone connected

sync_all_ofono_call_history-at_most_example :
    (new : List Noti) × ((sync_all_ofono_call_history "/hfp" phone connected).sent
      ≡ history_end ∷ new ++ history_start ∷ [])
    × (length new ≤ 150)
    × All (IsHistory (("0900", "Ann") ∷ [])) new
    × ((sync_all_ofono_call_history "/hfp" phone connected).phonebook ≡ ("0900", "Ann") ∷ [])
sync_all_ofono_call_history-at_most_example =
    sync_all_ofono_call_history-at_most "/hfp" phone connected

call_commands-ReportsOnce_example :
    ReportsOnce DbusCommand.dial_call_noti false connected (dial_call "0901" phone connected)
    × ReportsOnce DbusCommand.answer_call_noti
        (Outcomes.answers phone (ringing ("/call" ∷ []) phone []))
        connected
        (answer_call phone connected)
    × HangsUp false phone connected (hangup_call phone connected)
call_commands-ReportsOnce_example = call_commands-ReportsOnce "0901" phone connected

device_requests-DeviceReports_example : DeviceReports device phone connected
device_requests-DeviceReports_example = device_requests-DeviceReports device phone connected

abbrev request : ℕ → Message
request serial = record {
  kind = Kind.method_call;
  serial = serial;
  path = "/com/example/hardwaremanager/agent";
  interface = "org.bluez.Agent1";
  member = "RequestConfirmation";
  sender = some "org.bluez";
  args = Argument.object_path "/org/bluez/hci0/dev_AA_BB_CC_00_11_22" ∷ Argument.uint32 123456 ∷ [];
}

-- Two requests for one device, of which the user answers the second.
abbrev steps : List Step
steps = calls (request 1) ∷ calls (request 2) ∷ answers device true ∷ []

run_steps-received_example :
    answered 2 (run_steps steps connected).replies
      + waiting 2 (run_steps steps connected).pending_confirmations
    ≤ 0 + 0 + received 2 steps
run_steps-received_example = run_steps-received 2 steps connected

device_address-device_address_to_object_path_example :
    (device_address (device_address_to_object_path adapter device) ≡ device)
    × (device_removed (device_address_to_object_path adapter device) connected
        ≡ notify DbusCommand.scanning_btdevice_delete_noti true (removed_info device) connected)
device_address-device_address_to_object_path_example =
    device_address-device_address_to_object_path adapter device connected (search) (search) (search)

abbrev crc : String
crc = "72 01 4b 46 7f ff 0e 10 57 : crc=57 "

abbrev hex : String
hex = "72 01 4b 46 7f ff 0e 10 57 "

abbrev divided : ℤ → ℕ
divided n = 1103060992

read_temperature_sensor-to_string_example :
    (read_temperature_sensor divided "/sys/w1_slave"
        (some (passed_line crc "", data_line hex (negsuc 62)))
        0
      ≡ (true, divided (negsuc 62)))
    × (read_temperature_sensor divided "/sys/w1_slave" (some (crc, "NO")) 0 ≡ (false, 0))
read_temperature_sensor-to_string_example =
    read_temperature_sensor-to_string divided "/sys/w1_slave" crc "" hex "NO" (negsuc 62) 0 refl
      (search) (search) (omega arith)
