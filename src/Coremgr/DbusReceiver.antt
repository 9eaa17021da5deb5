-- ===== src/Coremgr/DbusReceiver.antt =====
-- coremgr/src/Thread/DBusReceiver.cpp: the notifications of the other managers become events. The
-- function `stof` is that of the C++ library: the bit pattern of a float, or an exception.
pub mod WellTyped
use mathlib.Core.Option
use raspberrypiservice.Prelude.{
  ℕ, Bool, true, false, String, List, [], ◌∷◌, Option, none, some, str_eq, if◌then◌else◌,
}
use raspberrypiservice.Common.Define.{DbusCommand}
use raspberrypiservice.Common.DbusData.{DbusDataType, DbusDataInfo}
use raspberrypiservice.Common.Stdlib.{stoi}
use raspberrypiservice.Common.Event.{Payload, Event, payload_event}
use raspberrypiservice.Common.EventQueue.{EventQueue, push_event}
use raspberrypiservice.Coremgr.EventTypeId.{EventTypeId}

-- `NotiPayload(isSuccess, dataInfo.data[DBUS_DATA_MESSAGE])`
abbrev noti_event : EventTypeId → Bool → DbusDataInfo → Event EventTypeId
noti_event id ok info = payload_event id (Payload.noti ok (info DbusDataType.message))

abbrev call_event : EventTypeId → DbusDataInfo → Event EventTypeId
call_event id info = payload_event id (
    Payload.call (info DbusDataType.call_name) (info DbusDataType.call_number)
      (info DbusDataType.call_state))

abbrev device_event : EventTypeId → DbusDataInfo → Option (List (Event EventTypeId))
device_event id info =
    Option.map
      (λ rssi.
        payload_event id (
          Payload.bluetooth_device (info DbusDataType.bt_device_name)
            (info DbusDataType.bt_device_address) rssi
            (str_eq (info DbusDataType.bt_device_paired) "true")
            (str_eq (info DbusDataType.bt_device_connected) "true")
            (info DbusDataType.bt_device_icon))
        ∷ [])
      (stoi (info DbusDataType.bt_device_rssi))

-- The `switch` of `handleMessageNoti`: the events that are pushed, in order; `none` is an exception
-- of `stoi` or `stof`, which nothing catches.
unfoldable pub notifications :
    (stof : String → Option ℕ)
    → DbusCommand
    → Bool
    → DbusDataInfo
    → Option (List (Event EventTypeId))
notifications stof DbusCommand.update_temperature_noti ok info =
    Option.map
      (λ t. payload_event EventTypeId.update_temperature_noti (Payload.noti_temperature ok t) ∷ [])
      (stof (info DbusDataType.temperature_value))
notifications stof DbusCommand.start_scan_btdevice_noti ok info =
    some (noti_event EventTypeId.start_scan_btdevice_noti ok info ∷ [])
notifications stof DbusCommand.stop_scan_btdevice_noti ok info =
    some (noti_event EventTypeId.stop_scan_btdevice_noti ok info ∷ [])
notifications stof DbusCommand.scanning_btdevice_found_noti ok info =
    if ok then device_event EventTypeId.scanning_btdevice_found_noti info else some []
notifications stof DbusCommand.scanning_btdevice_delete_noti ok info =
    if ok
    then some (
        payload_event EventTypeId.scanning_btdevice_delete_noti
          (Payload.bluetooth_device_address (info DbusDataType.bt_device_address))
        ∷ [])
    else some []
notifications stof DbusCommand.bluetooth_power_on_noti ok info =
    some (noti_event EventTypeId.bluetooth_power_on_noti ok info ∷ [])
notifications stof DbusCommand.bluetooth_power_off_noti ok info =
    some (noti_event EventTypeId.bluetooth_power_off_noti ok info ∷ [])
notifications stof DbusCommand.btdevice_property_change_noti ok info =
    if ok then device_event EventTypeId.btdevice_property_change_noti info else some []
notifications stof DbusCommand.pair_btdevice_noti ok info =
    some (noti_event EventTypeId.pair_btdevice_noti ok info ∷ [])
notifications stof DbusCommand.unpair_btdevice_noti ok info =
    some (noti_event EventTypeId.unpair_btdevice_noti ok info ∷ [])
notifications stof DbusCommand.connect_btdevice_noti ok info = some (
    payload_event EventTypeId.connect_btdevice_noti (
      Payload.noti_bt_device_address ok (info DbusDataType.message)
        (info DbusDataType.bt_device_address))
    ∷ [])
notifications stof DbusCommand.disconnect_btdevice_noti ok info = some (
    payload_event EventTypeId.disconnect_btdevice_noti (
      Payload.noti_bt_device_address ok (info DbusDataType.message)
        (info DbusDataType.bt_device_address))
    ∷ [])
notifications stof DbusCommand.btdevice_request_confirmation_noti ok info =
    if ok
    then some (
        payload_event EventTypeId.btdevice_request_confirmation_noti (
          Payload.bluetooth_device_passkey (info DbusDataType.bt_device_address)
            (info DbusDataType.bt_pairing_passkey))
        ∷ [])
    else some []
notifications stof DbusCommand.pbap_session_end_noti ok info =
    some (noti_event EventTypeId.pbap_session_end_noti ok info ∷ [])
notifications stof DbusCommand.pbap_phonebook_pull_start_noti ok info =
    some (noti_event EventTypeId.pbap_phonebook_pull_start_noti ok info ∷ [])
notifications stof DbusCommand.pbap_phonebook_pull_end_noti ok info =
    some (noti_event EventTypeId.pbap_phonebook_pull_end_noti ok info ∷ [])
notifications stof DbusCommand.call_history_pull_start_noti ok info =
    some (noti_event EventTypeId.call_history_pull_start_noti ok info ∷ [])
notifications stof DbusCommand.call_history_pull_end_noti ok info =
    some (noti_event EventTypeId.call_history_pull_end_noti ok info ∷ [])
notifications stof DbusCommand.pbap_phonebook_pull_noti ok info =
    if ok
    then some (
        payload_event EventTypeId.pbap_phonebook_pull_noti
          (Payload.contact (info DbusDataType.contact_name) (info DbusDataType.contact_number))
        ∷ [])
    else some []
notifications stof DbusCommand.call_history_pull_noti ok info =
    if ok
    then some (
        payload_event EventTypeId.call_history_pull_noti (
          Payload.call_history (info DbusDataType.call_history_name)
            (info DbusDataType.call_history_number) (info DbusDataType.call_history_type)
            (info DbusDataType.call_history_datetime))
        ∷ [])
    else some []
notifications stof DbusCommand.incoming_call_noti ok info =
    if ok then some (call_event EventTypeId.incoming_call_noti info ∷ []) else some []
notifications stof DbusCommand.outgoing_call_noti ok info =
    if ok then some (call_event EventTypeId.outgoing_call_noti info ∷ []) else some []
notifications stof DbusCommand.call_state_changed_noti ok info =
    if ok then some (call_event EventTypeId.call_state_changed_noti info ∷ []) else some []
notifications stof DbusCommand.call_ended_noti ok info =
    if ok then some (call_event EventTypeId.call_ended_noti info ∷ []) else some []
notifications stof DbusCommand.dial_call_noti ok info =
    some (noti_event EventTypeId.dial_call_noti ok info ∷ [])
notifications stof DbusCommand.answer_call_noti ok info =
    some (noti_event EventTypeId.answer_call_noti ok info ∷ [])
notifications stof DbusCommand.hangup_call_noti ok info =
    some (noti_event EventTypeId.hangup_call_noti ok info ∷ [])
notifications stof DbusCommand.start_record_noti ok info =
    some (noti_event EventTypeId.start_record_noti ok info ∷ [])
notifications stof DbusCommand.stop_record_noti ok info =
    some (noti_event EventTypeId.stop_record_noti ok info ∷ [])
notifications stof DbusCommand.cancel_record_noti ok info =
    some (noti_event EventTypeId.cancel_record_noti ok info ∷ [])
notifications stof DbusCommand.filter_wav_file_noti ok info =
    let noti = noti_event EventTypeId.filter_wav_file_noti ok info in
    if ok
    then Option.map
        (λ d.
          payload_event EventTypeId.insert_wav_file
            (Payload.wav (info DbusDataType.wav_file_path) d)
          ∷ noti
          ∷ [])
        (stoi (info DbusDataType.wav_file_duration_sec))
    else some (noti ∷ [])
notifications stof _ ok info = some []

unfoldable pub push_each :
    List (Event EventTypeId) → EventQueue (Event EventTypeId) → EventQueue (Event EventTypeId)
push_each [] q = q
push_each (e ∷ es) q = push_each es (push_event (some e) q).0

unfoldable pub handle_message_noti :
    (stof : String → Option ℕ)
    → DbusCommand
    → Bool
    → DbusDataInfo
    → EventQueue (Event EventTypeId)
    → Option (EventQueue (Event EventTypeId))
unfolding notifications push_each push_event
handle_message_noti stof cmd ok info q =
    Option.map (λ es. push_each es q) (notifications stof cmd ok info)

-- Every command without arguments is unknown here.
unfoldable pub handle_message :
    DbusCommand → EventQueue (Event EventTypeId) → EventQueue (Event EventTypeId)
handle_message cmd q = q
