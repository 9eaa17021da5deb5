-- ===== src/Services/Meaning.antt =====
-- What the commands of the core manager ask for.
use raspberrypiservice.Prelude.{Option, none, some}
use raspberrypiservice.Common.Define.{DbusCommand}
use raspberrypiservice.Common.DbusData.{DbusDataType, DbusDataInfo}
use raspberrypiservice.Common.Event.{Payload, Event, payload_event}
use raspberrypiservice.Hardwaremgr.EventTypeId.{EventTypeId as HardwareEventTypeId}
use raspberrypiservice.Recordmgr.EventTypeId.{EventTypeId as RecordEventTypeId}

-- What a command without data asks for, of which manager.
pub data Meaning : Type 0 where
  of_hardware : HardwareEventTypeId → Meaning
  of_record : RecordEventTypeId → Meaning
  of_none : Meaning

abbrev pub meaning : DbusCommand → Meaning
meaning DbusCommand.initialize_bluetooth = of_hardware HardwareEventTypeId.initialize_bluetooth
meaning DbusCommand.start_scan_btdevice = of_hardware HardwareEventTypeId.start_scan_btdevice
meaning DbusCommand.stop_scan_btdevice = of_hardware HardwareEventTypeId.stop_scan_btdevice
meaning DbusCommand.bluetooth_power_on = of_hardware HardwareEventTypeId.bluetooth_power_on
meaning DbusCommand.bluetooth_power_off = of_hardware HardwareEventTypeId.bluetooth_power_off
meaning DbusCommand.hangup_call = of_hardware HardwareEventTypeId.hangup_call
meaning DbusCommand.answer_call = of_hardware HardwareEventTypeId.answer_call
meaning DbusCommand.start_record = of_record RecordEventTypeId.start_record
meaning DbusCommand.stop_record = of_record RecordEventTypeId.stop_record
meaning DbusCommand.cancel_record = of_record RecordEventTypeId.cancel_record
meaning _ = of_none

-- What a command with data asks of the hardware manager.
abbrev pub device_event : HardwareEventTypeId → DbusDataInfo → Event HardwareEventTypeId
device_event id info =
    payload_event id (Payload.bluetooth_device_address (info DbusDataType.bt_device_address))

abbrev pub call_event : DbusDataInfo → Event HardwareEventTypeId
call_event info =
    payload_event HardwareEventTypeId.dial_call (Payload.call "" (info DbusDataType.call_number) "")

abbrev pub meaning_noti : DbusCommand → DbusDataInfo → Option (Event HardwareEventTypeId)
meaning_noti DbusCommand.pair_btdevice info =
    some (device_event HardwareEventTypeId.pair_btdevice info)
meaning_noti DbusCommand.unpair_btdevice info =
    some (device_event HardwareEventTypeId.unpair_btdevice info)
meaning_noti DbusCommand.connect_btdevice info =
    some (device_event HardwareEventTypeId.connect_btdevice info)
meaning_noti DbusCommand.disconnect_btdevice info =
    some (device_event HardwareEventTypeId.disconnect_btdevice info)
meaning_noti DbusCommand.reject_request_confirmation info =
    some (device_event HardwareEventTypeId.reject_request_confirmation info)
meaning_noti DbusCommand.accept_request_confirmation info =
    some (device_event HardwareEventTypeId.accept_request_confirmation info)
meaning_noti DbusCommand.dial_call info = some (call_event info)
meaning_noti _ info = none
