-- ===== src/Services/Signals.antt =====
-- The signals between the managers: what one manager's factory makes, and what the receiving thread of
-- another (DBusReceiverBase with the interface and the signal of its Config.hpp) does with it.
use raspberrypiservice.Prelude.{◌≡◌, refl, ap, Bool, true, false, [], ◌∷◌, ◌++◌, some}
use raspberrypiservice.Common.Define.{DbusCommand}
use raspberrypiservice.Common.DbusData.{DbusDataType, DbusDataInfo}
use raspberrypiservice.Common.Event.{Event, plain_event}
use raspberrypiservice.Common.EventQueue.{EventQueue, push_event}
use raspberrypiservice.Common.Dbus.Libdbus.{Libdbus, IsDocumented}
use raspberrypiservice.Common.Dbus.Receiver.{Dispatched, received_message}
use raspberrypiservice.Common.Dbus.RoundTrip.{
  HasNoNull, received_message-make_msg_internal, received_message-make_msg_noti_internal,
}
use raspberrypiservice.Services.Meaning.{
  Meaning, of_hardware, of_record, of_none, meaning, device_event, call_event, meaning_noti,
}
use raspberrypiservice.Coremgr.CmSenderFactory.{
  make_msg_to_hardware, make_msg_to_record, make_msg_noti_to_hardware, make_msg, make_msg_noti,
}
use raspberrypiservice.Hardwaremgr.Config.{hardwaremgr_interface_name, hardwaremgr_signal_name}
use raspberrypiservice.Hardwaremgr.EventTypeId.{EventTypeId as HardwareEventTypeId}
use raspberrypiservice.Hardwaremgr.DbusReceiver.{
  handle_message as hardware_handle_message, handle_message_noti as hardware_handle_message_noti,
}
use raspberrypiservice.Recordmgr.EventTypeId.{EventTypeId as RecordEventTypeId}
use raspberrypiservice.Recordmgr.MainWorker.{handle_message as record_handle_message}

abbrev pub HardwareQueue : Type 0
HardwareQueue = EventQueue (Event HardwareEventTypeId)

abbrev pub RecordQueue : Type 0
RecordQueue = EventQueue (Event RecordEventTypeId)

abbrev pub hardware_dispatched : Dispatched → HardwareQueue → HardwareQueue
hardware_dispatched (Dispatched.message (some cmd)) q = hardware_handle_message cmd q
hardware_dispatched (Dispatched.message_noti (some cmd) ok info) q =
    hardware_handle_message_noti cmd ok info q
hardware_dispatched _ q = q

-- The record manager does nothing with a notification.
abbrev pub record_dispatched : Dispatched → RecordQueue → RecordQueue
record_dispatched (Dispatched.message (some cmd)) q = record_handle_message cmd q
record_dispatched _ q = q

module _ (l : Libdbus) where
  open l use {Message}

  abbrev pub hardware_receive : Message → HardwareQueue → HardwareQueue
  hardware_receive m =
      hardware_dispatched (received_message l hardwaremgr_interface_name hardwaremgr_signal_name m)

  abbrev pub record_receive : Message → RecordQueue → RecordQueue
  record_receive m =
      record_dispatched (received_message l "com.example.recordmanager.interface" "RecordSignal" m)

  -- The manager that is meant queues the event that is meant; a signal of no meaning is not made.
  abbrev pub Arrives : Meaning → Message → HardwareQueue → RecordQueue → Type 0
  Arrives (of_hardware id) m q r =
      hardware_receive m q ≡ record { event_list = q.event_list ++ plain_event id ∷ [] }
  Arrives (of_record id) m q r =
      record_receive m r ≡ record { event_list = r.event_list ++ plain_event id ∷ [] }
  Arrives of_none m q r = true ≡ false

  module _ (d : IsDocumented l) where
    hardware_command :
        (cmd : DbusCommand) (m : Message) (q : HardwareQueue)
        → make_msg_to_hardware l cmd ≡ some m
        → hardware_receive m q ≡ hardware_handle_message cmd q
    unfolding make_msg_to_hardware
    hardware_command cmd m q h =
        ap (λ x. hardware_dispatched x q)
          (received_message-make_msg_internal l d "/com/example/hardwaremanager"
            hardwaremgr_interface_name hardwaremgr_signal_name cmd m h)

    record_command :
        (cmd : DbusCommand) (m : Message) (q : RecordQueue)
        → make_msg_to_record l cmd ≡ some m
        → record_receive m q ≡ record_handle_message cmd q
    unfolding make_msg_to_record
    record_command cmd m q h =
        ap (λ x. record_dispatched x q)
          (received_message-make_msg_internal l d "/com/example/recordmanager"
            "com.example.recordmanager.interface" "RecordSignal" cmd m h)

    -- A command without data that the core manager's factory makes into a signal is queued, by the
    -- manager that is meant, as the event that is meant, behind those already there.
    pub Arrives-make_msg :
        (cmd : DbusCommand) (m : Message) (q : HardwareQueue) (r : RecordQueue)
        → make_msg l cmd ≡ some m
        → Arrives (meaning cmd) m q r
    unfolding make_msg hardware_handle_message record_handle_message push_event
    Arrives-make_msg DbusCommand.initialize_bluetooth m q r h =
        hardware_command DbusCommand.initialize_bluetooth m q h
    Arrives-make_msg DbusCommand.start_scan_btdevice m q r h =
        hardware_command DbusCommand.start_scan_btdevice m q h
    Arrives-make_msg DbusCommand.stop_scan_btdevice m q r h =
        hardware_command DbusCommand.stop_scan_btdevice m q h
    Arrives-make_msg DbusCommand.bluetooth_power_on m q r h =
        hardware_command DbusCommand.bluetooth_power_on m q h
    Arrives-make_msg DbusCommand.bluetooth_power_off m q r h =
        hardware_command DbusCommand.bluetooth_power_off m q h
    Arrives-make_msg DbusCommand.hangup_call m q r h =
        hardware_command DbusCommand.hangup_call m q h
    Arrives-make_msg DbusCommand.answer_call m q r h =
        hardware_command DbusCommand.answer_call m q h
    Arrives-make_msg DbusCommand.start_record m q r h =
        record_command DbusCommand.start_record m r h
    Arrives-make_msg DbusCommand.stop_record m q r h = record_command DbusCommand.stop_record m r h
    Arrives-make_msg DbusCommand.cancel_record m q r h =
        record_command DbusCommand.cancel_record m r h
    Arrives-make_msg _ m q r h = cc (h)

    hardware_noti :
        (cmd : DbusCommand) (ok : Bool) (info : DbusDataInfo) (m : Message) (q : HardwareQueue)
        → ((k : DbusDataType) → HasNoNull (info k))
        → make_msg_noti_to_hardware l cmd ok info ≡ some m
        → hardware_receive m q ≡ hardware_handle_message_noti cmd ok info q
    unfolding make_msg_noti_to_hardware
    hardware_noti cmd ok info m q no_null h =
        ap (λ x. hardware_dispatched x q)
          (received_message-make_msg_noti_internal l d "/com/example/hardwaremanager"
            hardwaremgr_interface_name hardwaremgr_signal_name cmd ok info m no_null h)

    -- A command with data that the core manager's factory makes into a signal is queued by the
    -- hardware manager as the event that is meant, with the address or the number that was given,
    -- behind those already there, if no text has a null character.
    pub hardware_receive-make_msg_noti :
        (cmd : DbusCommand) (ok : Bool) (info : DbusDataInfo) (m : Message) (q : HardwareQueue)
        → ((k : DbusDataType) → HasNoNull (info k))
        → make_msg_noti l cmd ok info ≡ some m
        → (e : Event HardwareEventTypeId) × (meaning_noti cmd info ≡ some e)
          × (hardware_receive m q ≡ record { event_list = q.event_list ++ e ∷ [] })
    unfolding make_msg_noti hardware_handle_message_noti push_event
    hardware_receive-make_msg_noti DbusCommand.pair_btdevice ok info m q no_null h = (
      device_event HardwareEventTypeId.pair_btdevice info,
      refl,
      hardware_noti DbusCommand.pair_btdevice ok info m q no_null h,
    )
    hardware_receive-make_msg_noti DbusCommand.unpair_btdevice ok info m q no_null h = (
      device_event HardwareEventTypeId.unpair_btdevice info,
      refl,
      hardware_noti DbusCommand.unpair_btdevice ok info m q no_null h,
    )
    hardware_receive-make_msg_noti DbusCommand.connect_btdevice ok info m q no_null h = (
      device_event HardwareEventTypeId.connect_btdevice info,
      refl,
      hardware_noti DbusCommand.connect_btdevice ok info m q no_null h,
    )
    hardware_receive-make_msg_noti DbusCommand.disconnect_btdevice ok info m q no_null h = (
      device_event HardwareEventTypeId.disconnect_btdevice info,
      refl,
      hardware_noti DbusCommand.disconnect_btdevice ok info m q no_null h,
    )
    hardware_receive-make_msg_noti DbusCommand.reject_request_confirmation ok info m q no_null h = (
      device_event HardwareEventTypeId.reject_request_confirmation info,
      refl,
      hardware_noti DbusCommand.reject_request_confirmation ok info m q no_null h,
    )
    hardware_receive-make_msg_noti DbusCommand.accept_request_confirmation ok info m q no_null h = (
      device_event HardwareEventTypeId.accept_request_confirmation info,
      refl,
      hardware_noti DbusCommand.accept_request_confirmation ok info m q no_null h,
    )
    hardware_receive-make_msg_noti DbusCommand.dial_call ok info m q no_null h =
        (call_event info, refl, hardware_noti DbusCommand.dial_call ok info m q no_null h)
    hardware_receive-make_msg_noti _ ok info m q no_null h = cc (h)
