-- ===== src/Coremgr/WebSocket.antt =====
-- coremgr/src/Thread/WebSocket.cpp and coremgr/src/Util/JsonHelper.cpp: a client's message becomes
-- an event. The JSON library is a parameter.
pub mod Commands
pub mod Requests
use raspberrypiservice.Prelude.{
  ℕ, Bool, true, false, String, List, [], ◌∷◌, Option, none, some, ℤ, str_eq, if◌then◌else◌,
}
use raspberrypiservice.Common.Event.{Payload, Event, plain_event, payload_event}
use raspberrypiservice.Common.EventQueue.{EventQueue, push_event}
use raspberrypiservice.Coremgr.EventTypeId.{EventTypeId}

-- What the code calls of nlohmann::json. `parse` fails with a `parse_error`, `as_string` with a
-- `type_error`; `at` is `operator[]` on a key that `contains` has found, and `value` is the lookup
-- with a default, an empty object.
pub record JsonLibrary : Type 1 where
  pub Json : Type 0
  pub parse : String → Option Json
  pub contains : Json → String → Bool
  pub at : Json → String → Json
  pub value : Json → String → Json
  pub is_number : Json → Bool
  pub is_string : Json → Bool
  pub get_int : Json → ℤ
  pub get_string : Json → String
  pub as_string : Json → Option String

pub data CommandType : Type 0 where
  start_scan_btdevice stop_scan_btdevice bluetooth_power_on bluetooth_power_off : CommandType
  pair_btdevice unpair_btdevice connect_btdevice disconnect_btdevice : CommandType
  accept_request_confirmation reject_request_confirmation : CommandType
  dial_call hangup_call answer_call : CommandType
  start_record stop_record cancel_record remove_record get_all_record : CommandType
  unknown : CommandType

unfoldable pub string_to_command : String → CommandType
string_to_command s =
    if str_eq s "start_scan_btdevice"
    then CommandType.start_scan_btdevice
    else if str_eq s "stop_scan_btdevice"
    then CommandType.stop_scan_btdevice
    else if str_eq s "bluetooth_power_on"
    then CommandType.bluetooth_power_on
    else if str_eq s "bluetooth_power_off"
    then CommandType.bluetooth_power_off
    else if str_eq s "pair_btdevice"
    then CommandType.pair_btdevice
    else if str_eq s "unpair_btdevice"
    then CommandType.unpair_btdevice
    else if str_eq s "connect_btdevice"
    then CommandType.connect_btdevice
    else if str_eq s "disconnect_btdevice"
    then CommandType.disconnect_btdevice
    else if str_eq s "accept_request_confirmation"
    then CommandType.accept_request_confirmation
    else if str_eq s "reject_request_confirmation"
    then CommandType.reject_request_confirmation
    else if str_eq s "dial_call"
    then CommandType.dial_call
    else if str_eq s "hangup_call"
    then CommandType.hangup_call
    else if str_eq s "answer_call"
    then CommandType.answer_call
    else if str_eq s "start_record"
    then CommandType.start_record
    else if str_eq s "stop_record"
    then CommandType.stop_record
    else if str_eq s "cancel_record"
    then CommandType.cancel_record
    else if str_eq s "remove_record"
    then CommandType.remove_record
    else if str_eq s "get_all_record"
    then CommandType.get_all_record
    else CommandType.unknown

module _ (lib : JsonLibrary) where
  open lib use {
    Json, parse, contains, at, value, is_number, is_string, get_int, get_string, as_string,
  }

  -- `JsonHelper::getIntField` and `getStringField`.
  pub get_int_field : Json → String → Option ℤ
  get_int_field j key =
      if contains j key
      then if is_number (at j key) then some (get_int (at j key)) else none
      else none

  pub get_string_field : Json → String → Option String
  get_string_field j key =
      if contains j key
      then if is_string (at j key) then some (get_string (at j key)) else none
      else none

  abbrev address_event : EventTypeId → Option String → Option (Event EventTypeId)
  address_event id none = none
  address_event id (some a) = some (payload_event id (Payload.bluetooth_device_address a))

  abbrev dial_event : Option String → Option (Event EventTypeId)
  dial_event none = none
  dial_event (some n) = some (payload_event EventTypeId.dial_call (Payload.call "" n ""))

  abbrev remove_event : Option ℤ → Option (Event EventTypeId)
  remove_event none = none
  remove_event (some i) = some (payload_event EventTypeId.remove_record (Payload.remove_record i))

  -- The `switch` of `translateMsg`; a null event is `none`.
  unfoldable pub translate : CommandType → Json → Option (Event EventTypeId)
  unfolding get_int_field get_string_field
  translate CommandType.start_scan_btdevice j = some (plain_event EventTypeId.start_scan_btdevice)
  translate CommandType.stop_scan_btdevice j = some (plain_event EventTypeId.stop_scan_btdevice)
  translate CommandType.bluetooth_power_on j = some (plain_event EventTypeId.bluetooth_power_on)
  translate CommandType.bluetooth_power_off j = some (plain_event EventTypeId.bluetooth_power_off)
  translate CommandType.pair_btdevice j =
      address_event EventTypeId.pair_btdevice (get_string_field j "device_address")
  translate CommandType.unpair_btdevice j =
      address_event EventTypeId.unpair_btdevice (get_string_field j "device_address")
  translate CommandType.connect_btdevice j =
      address_event EventTypeId.connect_btdevice (get_string_field j "device_address")
  translate CommandType.disconnect_btdevice j =
      address_event EventTypeId.disconnect_btdevice (get_string_field j "device_address")
  translate CommandType.accept_request_confirmation j =
      address_event EventTypeId.accept_request_confirmation (get_string_field j "device_address")
  translate CommandType.reject_request_confirmation j =
      address_event EventTypeId.reject_request_confirmation (get_string_field j "device_address")
  translate CommandType.dial_call j = dial_event (get_string_field j "number")
  translate CommandType.hangup_call j = some (plain_event EventTypeId.hangup_call)
  translate CommandType.answer_call j = some (plain_event EventTypeId.answer_call)
  translate CommandType.start_record j = some (plain_event EventTypeId.start_record)
  translate CommandType.stop_record j = some (plain_event EventTypeId.stop_record)
  translate CommandType.cancel_record j = some (plain_event EventTypeId.cancel_record)
  translate CommandType.remove_record j = remove_event (get_int_field j "id")
  translate CommandType.get_all_record j = some (plain_event EventTypeId.get_all_record)
  translate CommandType.unknown j = none

  unfoldable pub translate_msg : String → Json → Option (Event EventTypeId)
  translate_msg message j = translate (string_to_command message) j

  abbrev event_of_command : Json → Option String → Option (Event EventTypeId)
  event_of_command j none = none
  event_of_command j (some command) = translate_msg command (value j "data")

  abbrev event_of_json : Option Json → Option (Event EventTypeId)
  event_of_json none = none
  event_of_json (some j) =
      if contains j "command" then event_of_command j (as_string (at j "command")) else none

  -- The exceptions of the library are caught and logged; a null event is not pushed.
  unfoldable pub handle_message_from_client :
      String → EventQueue (Event EventTypeId) → EventQueue (Event EventTypeId)
  handle_message_from_client message q = (push_event (event_of_json (parse message)) q).0
