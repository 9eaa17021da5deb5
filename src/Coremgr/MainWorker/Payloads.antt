-- ===== src/Coremgr/MainWorker/Payloads.antt =====
-- Which class of payload each event carries, and what a handler does with another one.
use raspberrypiservice.Prelude.{◌≡◌, Bool, true, false, Option, some, arith}
use raspberrypiservice.Common.Event.{Payload, Event}
use raspberrypiservice.Coremgr.EventTypeId.{EventTypeId}
use raspberrypiservice.Coremgr.Core.{Core}
use raspberrypiservice.Coremgr.MainWorker.{Outside, handle, process_event}

-- The classes of common/include/Event/Event.hpp, and `any` where the payload is not read.
pub data PayloadClass : Type 0 where
  any noti noti_temperature noti_bt_device_address contact call_history call : PayloadClass
  bluetooth_device bluetooth_device_address bluetooth_device_passkey : PayloadClass
  wav remove_record : PayloadClass

abbrev pub is_of : PayloadClass → Option Payload → Bool
is_of PayloadClass.any p = true
is_of PayloadClass.noti (some (Payload.noti _ _)) = true
is_of PayloadClass.noti_temperature (some (Payload.noti_temperature _ _)) = true
is_of PayloadClass.noti_bt_device_address (some (Payload.noti_bt_device_address _ _ _)) = true
is_of PayloadClass.contact (some (Payload.contact _ _)) = true
is_of PayloadClass.call_history (some (Payload.call_history _ _ _ _)) = true
is_of PayloadClass.call (some (Payload.call _ _ _)) = true
is_of PayloadClass.bluetooth_device (some (Payload.bluetooth_device _ _ _ _ _ _)) = true
is_of PayloadClass.bluetooth_device_address (some (Payload.bluetooth_device_address _)) = true
is_of PayloadClass.bluetooth_device_passkey (some (Payload.bluetooth_device_passkey _ _)) = true
is_of PayloadClass.wav (some (Payload.wav _ _)) = true
is_of PayloadClass.remove_record (some (Payload.remove_record _)) = true
is_of _ p = false

-- The class that an event of the type is meant to carry.
abbrev pub class_for : EventTypeId → PayloadClass
class_for EventTypeId.pair_btdevice = PayloadClass.bluetooth_device_address
class_for EventTypeId.unpair_btdevice = PayloadClass.bluetooth_device_address
class_for EventTypeId.connect_btdevice = PayloadClass.bluetooth_device_address
class_for EventTypeId.disconnect_btdevice = PayloadClass.bluetooth_device_address
class_for EventTypeId.accept_request_confirmation = PayloadClass.bluetooth_device_address
class_for EventTypeId.reject_request_confirmation = PayloadClass.bluetooth_device_address
class_for EventTypeId.dial_call = PayloadClass.call
class_for EventTypeId.update_temperature_noti = PayloadClass.noti_temperature
class_for EventTypeId.start_scan_btdevice_noti = PayloadClass.noti
class_for EventTypeId.stop_scan_btdevice_noti = PayloadClass.noti
class_for EventTypeId.scanning_btdevice_found_noti = PayloadClass.bluetooth_device
class_for EventTypeId.scanning_btdevice_delete_noti = PayloadClass.bluetooth_device_address
class_for EventTypeId.bluetooth_power_on_noti = PayloadClass.noti
class_for EventTypeId.bluetooth_power_off_noti = PayloadClass.noti
class_for EventTypeId.btdevice_property_change_noti = PayloadClass.bluetooth_device
class_for EventTypeId.pair_btdevice_noti = PayloadClass.noti
class_for EventTypeId.unpair_btdevice_noti = PayloadClass.noti
class_for EventTypeId.connect_btdevice_noti = PayloadClass.noti_bt_device_address
class_for EventTypeId.disconnect_btdevice_noti = PayloadClass.noti_bt_device_address
class_for EventTypeId.btdevice_request_confirmation_noti = PayloadClass.bluetooth_device_passkey
class_for EventTypeId.btdevice_request_confirmation_timeout = PayloadClass.bluetooth_device_address
class_for EventTypeId.pbap_session_end_noti = PayloadClass.noti
class_for EventTypeId.pbap_phonebook_pull_start_noti = PayloadClass.noti
class_for EventTypeId.pbap_phonebook_pull_noti = PayloadClass.contact
class_for EventTypeId.pbap_phonebook_pull_end_noti = PayloadClass.noti
class_for EventTypeId.call_history_pull_start_noti = PayloadClass.noti
class_for EventTypeId.call_history_pull_noti = PayloadClass.call_history
class_for EventTypeId.call_history_pull_end_noti = PayloadClass.noti
class_for EventTypeId.incoming_call_noti = PayloadClass.call
class_for EventTypeId.outgoing_call_noti = PayloadClass.call
class_for EventTypeId.call_state_changed_noti = PayloadClass.call
class_for EventTypeId.call_ended_noti = PayloadClass.call
class_for EventTypeId.dial_call_noti = PayloadClass.noti
class_for EventTypeId.answer_call_noti = PayloadClass.noti
class_for EventTypeId.hangup_call_noti = PayloadClass.noti
class_for EventTypeId.remove_record = PayloadClass.remove_record
class_for EventTypeId.start_record_noti = PayloadClass.noti
class_for EventTypeId.stop_record_noti = PayloadClass.noti
class_for EventTypeId.cancel_record_noti = PayloadClass.noti
class_for EventTypeId.filter_wav_file_noti = PayloadClass.noti
class_for EventTypeId.insert_wav_file = PayloadClass.wav
class_for _ = PayloadClass.any

abbrev pub is_well_typed : Event EventTypeId → Bool
is_well_typed e = is_of (class_for e.event_type_id) e.payload

handle_ill_typed :
    (out : Outside) (id : EventTypeId) (payload : Option Payload) (c : Core)
    → is_of (class_for id) payload ≡ false
    → handle out id payload c ≡ c
unfolding handle
handle_ill_typed out EventTypeId.startup payload c h = cc
handle_ill_typed out _ payload c h = ground arith

-- An event whose payload is missing or of another class than the event's type asks for is dropped:
-- no state changes, nothing is sent and nothing is broadcast.
pub process_event_ill_typed :
    (out : Outside) (e : Event EventTypeId) (c : Core)
    → is_well_typed e ≡ false
    → process_event out (some e) c ≡ c
unfolding process_event
process_event_ill_typed out e c h = handle_ill_typed out e.event_type_id e.payload c h
