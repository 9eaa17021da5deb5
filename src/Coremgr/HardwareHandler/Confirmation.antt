-- ===== src/Coremgr/HardwareHandler/Confirmation.antt =====
-- HardwareHandler.cpp: a device's request for confirmation, its answer, and the timer that rejects
-- it (`timerIdMap_` and coremgr/src/Thread/Timer.cpp).
pub mod Ids
pub mod Answers
pub mod Stale
use raspberrypiservice.Prelude.{
  ℕ, Bool, true, false, String, List, [], ◌∷◌, Option, none, some, str_eq, if◌then◌else◌,
}
use raspberrypiservice.Common.Define.{DbusCommand}
use raspberrypiservice.Common.Event.{Payload, Event, payload_event}
use raspberrypiservice.Coremgr.EventTypeId.{EventTypeId}
use raspberrypiservice.Coremgr.Timer.{Timer, start_timer, stop_timer}
use raspberrypiservice.Coremgr.Core.{
  Core, JsonValue, send_message_noti, update_state_and_broadcast, as_bluetooth_device_address,
  as_bluetooth_device_passkey, when_some,
}
use raspberrypiservice.Coremgr.HardwareHandler.Device.{address_info}

abbrev pub timeout_request_confirmation_ms : ℕ
timeout_request_confirmation_ms = 30000

-- `timerIdMap_`, an unordered map from addresses to timer ids.
unfoldable pub find_id : String → List (String × ℕ) → Option ℕ
find_id key [] = none
find_id key ((k, v) ∷ m) = if str_eq k key then some v else find_id key m

unfoldable pub erase_id : String → List (String × ℕ) → List (String × ℕ)
erase_id key [] = []
erase_id key ((k, v) ∷ m) = if str_eq k key then m else (k, v) ∷ erase_id key m

-- `timerIdMap_[key] = id`
unfoldable pub set_id : String → ℕ → List (String × ℕ) → List (String × ℕ)
set_id key id [] = (key, id) ∷ []
set_id key id ((k, v) ∷ m) = if str_eq k key then (k, id) ∷ m else (k, v) ∷ set_id key id m

abbrev stop_found : String → Option ℕ → Core → Core
stop_found key none c = c
stop_found key (some id) c = record c {
  timer = (stop_timer id c.timer).1;
  timer_id_map = erase_id key c.timer_id_map;
}

unfoldable pub remove_timer_on_timer_id_map : String → Core → Core
remove_timer_on_timer_id_map key c = stop_found key (find_id key c.timer_id_map) c

unfoldable pub reject_bt_device_request_confirmation : Option Payload → Core → Core
unfolding remove_timer_on_timer_id_map
reject_bt_device_request_confirmation payload =
    when_some (as_bluetooth_device_address payload) λ address c.
      remove_timer_on_timer_id_map address
        (send_message_noti DbusCommand.reject_request_confirmation true (address_info address) c)

unfoldable pub accept_bt_device_request_confirmation : Option Payload → Core → Core
unfolding remove_timer_on_timer_id_map
accept_bt_device_request_confirmation payload =
    when_some (as_bluetooth_device_address payload) λ address c.
      remove_timer_on_timer_id_map address
        (send_message_noti DbusCommand.accept_request_confirmation true (address_info address) c)

-- The event that the timer of a request pushes.
abbrev pub timeout_event : String → Event EventTypeId
timeout_event address =
    payload_event EventTypeId.btdevice_request_confirmation_timeout
      (Payload.bluetooth_device_address address)

-- `if (timerId != -1) timerIdMap_[address] = timerId;`
abbrev remember : String → Option ℕ × Timer (Event EventTypeId) → Core → Core
remember address (none, t) c = record c { timer = t }
remember address (some id, t) c = record c {
  timer = t;
  timer_id_map = set_id address id c.timer_id_map;
}

unfoldable pub bt_device_request_confirmation_noti : (now : ℕ) → Option Payload → Core → Core
bt_device_request_confirmation_noti now payload =
    when_some (as_bluetooth_device_passkey payload) λ (address, passkey) c.
      let fields =
        ("device_address", JsonValue.text address) ∷ ("passkey", JsonValue.text passkey) ∷ [] in
      let started =
        start_timer now timeout_request_confirmation_ms (some (timeout_event address)) c.timer in
      remember address started (
        update_state_and_broadcast "success" "Bluetooth device requests confirmation." "Settings"
          "btdevice_request_confirmation_noti" fields c)

unfoldable pub handle_bt_device_request_confirmation_timeout : Option Payload → Core → Core
handle_bt_device_request_confirmation_timeout payload =
    when_some (as_bluetooth_device_address payload) λ address c.
      send_message_noti DbusCommand.reject_request_confirmation true (address_info address) c
