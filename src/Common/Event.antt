-- ===== src/Common/Event.antt =====
-- common/include/Event/Event.hpp: events and the classes of their payloads. A `float` is its 32-bit
-- pattern; a null `shared_ptr<Payload>` is `none`.
use raspberrypiservice.Prelude.{ℕ, Bool, String, Option, none, some, ℤ}

pub data Payload : Type 0 where
  noti : (is_success : Bool) (msg_info : String) → Payload
  noti_temperature : (is_success : Bool) (temperature_value : ℕ) → Payload
  noti_bt_device_address : (is_success : Bool) (msg_info address : String) → Payload
  contact : (name number : String) → Payload
  call_history : (name number type date_time : String) → Payload
  call : (name number state : String) → Payload
  bluetooth_device :
      (name address : String) (rssi : ℤ) (is_paired is_connected : Bool) (icon : String) → Payload
  bluetooth_device_address : (address : String) → Payload
  bluetooth_device_passkey : (address passkey : String) → Payload
  wav : (file_path : String) (duration_sec : ℤ) → Payload
  remove_record : (record_id : ℤ) → Payload

-- Each manager has its own enumeration of event types.
pub record Event (TypeId : Type 0) : Type 0 where
  pub event_type_id : TypeId
  pub payload : Option Payload

-- `Event(eventTypeId)` and `Event(eventTypeId, payload)`.
abbrev pub plain_event : {TypeId : Type 0} → TypeId → Event TypeId
plain_event id = record { event_type_id = id; payload = none }

abbrev pub payload_event : {TypeId : Type 0} → TypeId → Payload → Event TypeId
payload_event id p = record { event_type_id = id; payload = some p }
