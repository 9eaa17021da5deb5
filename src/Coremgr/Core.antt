-- ===== src/Coremgr/Core.antt =====
-- The state of the core manager's main thread, and the effects of the calls that leave it:
-- `DBUS_SENDER()->sendMessage` and `sendMessageNoti`, whose result no caller reads, and
-- `updateStateAndBroadcast` (coremgr/src/WS/WebSocketServer.cpp).
use raspberrypiservice.Prelude.{ℕ, Bool, String, List, ◌∷◌, Option, none, some, ℤ}
use raspberrypiservice.Common.Define.{DbusCommand}
use raspberrypiservice.Common.DbusData.{DbusDataInfo}
use raspberrypiservice.Common.Event.{Payload, Event}
use raspberrypiservice.Coremgr.EventTypeId.{EventTypeId}
use raspberrypiservice.Coremgr.StateView.{StateView}
use raspberrypiservice.Coremgr.Timer.{Timer}

-- coremgr/include/DB/Schema.hpp
pub record AudioRecord : Type 0 where
  pub id : ℤ
  pub file_path : String
  pub duration_sec : ℤ

-- The values that the handlers put into a broadcast.
pub data JsonValue : Type 0 where
  text : String → JsonValue
  number : ℤ → JsonValue
  flag : Bool → JsonValue
  audio_record : AudioRecord → JsonValue
  audio_records : List AudioRecord → JsonValue

-- The arguments of `updateStateAndBroadcast`; `{}` is the empty list.
pub record ServerMessage : Type 0 where
  pub status : String
  pub msg_info : String
  pub component : String
  pub msg_data : String
  pub json_data : List (String × JsonValue)

pub data Effect : Type 0 where
  sent : DbusCommand → Effect
  sent_noti : DbusCommand → Bool → DbusDataInfo → Effect
  broadcasts : ServerMessage → Effect
  removed_file : String → Effect

-- `outbox` lists the effects, the newest first. `timer_id_map` is `HardwareHandler::timerIdMap_`.
pub record Core : Type 0 where
  pub view : StateView
  pub open view use *
  pub timer_id_map : List (String × ℕ)
  pub timer : Timer (Event EventTypeId)
  pub db_thread_pool_set : Bool
  pub outbox : List Effect

abbrev pub emit : Effect → Core → Core
emit e c = record c { outbox = e ∷ c.outbox }

abbrev pub send_message : DbusCommand → Core → Core
send_message cmd c = emit (Effect.sent cmd) c

abbrev pub send_message_noti : DbusCommand → Bool → DbusDataInfo → Core → Core
send_message_noti cmd ok info c = emit (Effect.sent_noti cmd ok info) c

abbrev pub update_state_and_broadcast :
    (status msg_info component msg_data : String) → List (String × JsonValue) → Core → Core
update_state_and_broadcast status msg_info component msg_data data' c =
    emit
      (Effect.broadcasts (record {
        status = status;
        msg_info = msg_info;
        component = component;
        msg_data = msg_data;
        json_data = data';
      }))
      c

-- The `dynamic_pointer_cast`s: a null pointer, or one to another class, is cast to null.
abbrev pub as_noti : Option Payload → Option (Bool × String)
as_noti (some (Payload.noti ok msg)) = some (ok, msg)
as_noti _ = none

abbrev pub as_noti_temperature : Option Payload → Option (Bool × ℕ)
as_noti_temperature (some (Payload.noti_temperature ok t)) = some (ok, t)
as_noti_temperature _ = none

abbrev pub as_noti_bt_device_address : Option Payload → Option (Bool × String × String)
as_noti_bt_device_address (some (Payload.noti_bt_device_address ok msg a)) = some (ok, msg, a)
as_noti_bt_device_address _ = none

abbrev pub as_contact : Option Payload → Option (String × String)
as_contact (some (Payload.contact name phone)) = some (name, phone)
as_contact _ = none

abbrev pub as_call_history : Option Payload → Option (String × String × String × String)
as_call_history (some (Payload.call_history name phone type time)) = some (name, phone, type, time)
as_call_history _ = none

abbrev pub as_call : Option Payload → Option (String × String × String)
as_call (some (Payload.call name phone state)) = some (name, phone, state)
as_call _ = none

abbrev pub as_bluetooth_device :
    Option Payload → Option (String × String × ℤ × Bool × Bool × String)
as_bluetooth_device (some (Payload.bluetooth_device name a rssi paired connected icon)) =
    some (name, a, rssi, paired, connected, icon)
as_bluetooth_device _ = none

abbrev pub as_bluetooth_device_address : Option Payload → Option String
as_bluetooth_device_address (some (Payload.bluetooth_device_address a)) = some a
as_bluetooth_device_address _ = none

abbrev pub as_bluetooth_device_passkey : Option Payload → Option (String × String)
as_bluetooth_device_passkey (some (Payload.bluetooth_device_passkey a passkey)) = some (a, passkey)
as_bluetooth_device_passkey _ = none

abbrev pub as_wav : Option Payload → Option (String × ℤ)
as_wav (some (Payload.wav path duration)) = some (path, duration)
as_wav _ = none

abbrev pub as_remove_record : Option Payload → Option ℤ
as_remove_record (some (Payload.remove_record id)) = some id
as_remove_record _ = none

-- `if (p == nullptr) return;` and the rest of the handler.
abbrev pub when_some : {A : Type 0} → Option A → (A → Core → Core) → Core → Core
when_some none k c = c
when_some (some a) k c = k a c
