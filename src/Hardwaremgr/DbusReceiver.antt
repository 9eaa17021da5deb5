-- ===== src/Hardwaremgr/DbusReceiver.antt =====
-- hardwaremgr/src/Thread/DBusReceiver.cpp: the commands of the core manager become events.
use raspberrypiservice.Prelude.{Bool, some}
use raspberrypiservice.Common.Define.{DbusCommand}
use raspberrypiservice.Common.DbusData.{DbusDataType, DbusDataInfo}
use raspberrypiservice.Common.Event.{Payload, Event, plain_event, payload_event}
use raspberrypiservice.Common.EventQueue.{EventQueue, push_event}
use raspberrypiservice.Hardwaremgr.EventTypeId.{EventTypeId}

abbrev Queue : Type 0
Queue = EventQueue (Event EventTypeId)

abbrev received : EventTypeId → Queue → Queue
received id q = (push_event (some (plain_event id)) q).0

-- The last clause is `default`.
unfoldable pub handle_message : DbusCommand → Queue → Queue
unfolding push_event
handle_message DbusCommand.initialize_bluetooth q = received EventTypeId.initialize_bluetooth q
handle_message DbusCommand.start_scan_btdevice q = received EventTypeId.start_scan_btdevice q
handle_message DbusCommand.stop_scan_btdevice q = received EventTypeId.stop_scan_btdevice q
handle_message DbusCommand.bluetooth_power_on q = received EventTypeId.bluetooth_power_on q
handle_message DbusCommand.bluetooth_power_off q = received EventTypeId.bluetooth_power_off q
handle_message DbusCommand.hangup_call q = received EventTypeId.hangup_call q
handle_message DbusCommand.answer_call q = received EventTypeId.answer_call q
handle_message _ q = q

abbrev for_device : EventTypeId → DbusDataInfo → Queue → Queue
for_device id info q =
    let payload = Payload.bluetooth_device_address (info DbusDataType.bt_device_address) in
    (push_event (some (payload_event id payload)) q).0

abbrev for_call : DbusDataInfo → Queue → Queue
for_call info q =
    let payload = Payload.call "" (info DbusDataType.call_number) "" in
    (push_event (some (payload_event EventTypeId.dial_call payload)) q).0

unfoldable pub handle_message_noti : DbusCommand → Bool → DbusDataInfo → Queue → Queue
unfolding push_event
handle_message_noti DbusCommand.pair_btdevice ok info q =
    for_device EventTypeId.pair_btdevice info q
handle_message_noti DbusCommand.unpair_btdevice ok info q =
    for_device EventTypeId.unpair_btdevice info q
handle_message_noti DbusCommand.connect_btdevice ok info q =
    for_device EventTypeId.connect_btdevice info q
handle_message_noti DbusCommand.disconnect_btdevice ok info q =
    for_device EventTypeId.disconnect_btdevice info q
handle_message_noti DbusCommand.reject_request_confirmation ok info q =
    for_device EventTypeId.reject_request_confirmation info q
handle_message_noti DbusCommand.accept_request_confirmation ok info q =
    for_device EventTypeId.accept_request_confirmation info q
handle_message_noti DbusCommand.dial_call ok info q = for_call info q
handle_message_noti _ ok info q = q
