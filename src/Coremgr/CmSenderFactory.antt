-- ===== src/Coremgr/CmSenderFactory.antt =====
-- coremgr/src/DBus/CMSenderFactory.cpp: the signal that a command is sent as, if it is sent.
use raspberrypiservice.Prelude.{Bool, Option, none}
use raspberrypiservice.Common.Define.{DbusCommand}
use raspberrypiservice.Common.DbusData.{DbusDataInfo}
use raspberrypiservice.Common.Dbus.Libdbus.{Libdbus}
use raspberrypiservice.Common.Dbus.Sender.{make_msg_internal, make_msg_noti_internal}

module _ (l : Libdbus) where
  open l use {Message}

  -- The functions `makeMsg_…` of the hardware manager's commands, and those of the record manager's.
  unfoldable pub make_msg_to_hardware : DbusCommand → Option Message
  make_msg_to_hardware cmd =
      make_msg_internal l "/com/example/hardwaremanager" "com.example.hardwaremanager.interface"
        "HardwareSignal" cmd

  unfoldable pub make_msg_to_record : DbusCommand → Option Message
  make_msg_to_record cmd =
      make_msg_internal l "/com/example/recordmanager" "com.example.recordmanager.interface"
        "RecordSignal" cmd

  unfoldable pub make_msg_noti_to_hardware : DbusCommand → Bool → DbusDataInfo → Option Message
  make_msg_noti_to_hardware cmd ok info =
      make_msg_noti_internal l "/com/example/hardwaremanager"
        "com.example.hardwaremanager.interface" "HardwareSignal" cmd ok info

  unfoldable pub make_msg : DbusCommand → Option Message
  unfolding make_msg_to_hardware make_msg_to_record
  make_msg DbusCommand.initialize_bluetooth = make_msg_to_hardware DbusCommand.initialize_bluetooth
  make_msg DbusCommand.start_scan_btdevice = make_msg_to_hardware DbusCommand.start_scan_btdevice
  make_msg DbusCommand.stop_scan_btdevice = make_msg_to_hardware DbusCommand.stop_scan_btdevice
  make_msg DbusCommand.bluetooth_power_on = make_msg_to_hardware DbusCommand.bluetooth_power_on
  make_msg DbusCommand.bluetooth_power_off = make_msg_to_hardware DbusCommand.bluetooth_power_off
  make_msg DbusCommand.hangup_call = make_msg_to_hardware DbusCommand.hangup_call
  make_msg DbusCommand.answer_call = make_msg_to_hardware DbusCommand.answer_call
  make_msg DbusCommand.start_record = make_msg_to_record DbusCommand.start_record
  make_msg DbusCommand.stop_record = make_msg_to_record DbusCommand.stop_record
  make_msg DbusCommand.cancel_record = make_msg_to_record DbusCommand.cancel_record
  make_msg _ = none

  unfoldable pub make_msg_noti : DbusCommand → Bool → DbusDataInfo → Option Message
  unfolding make_msg_noti_to_hardware
  make_msg_noti DbusCommand.pair_btdevice = make_msg_noti_to_hardware DbusCommand.pair_btdevice
  make_msg_noti DbusCommand.unpair_btdevice = make_msg_noti_to_hardware DbusCommand.unpair_btdevice
  make_msg_noti DbusCommand.connect_btdevice =
      make_msg_noti_to_hardware DbusCommand.connect_btdevice
  make_msg_noti DbusCommand.disconnect_btdevice =
      make_msg_noti_to_hardware DbusCommand.disconnect_btdevice
  make_msg_noti DbusCommand.reject_request_confirmation =
      make_msg_noti_to_hardware DbusCommand.reject_request_confirmation
  make_msg_noti DbusCommand.accept_request_confirmation =
      make_msg_noti_to_hardware DbusCommand.accept_request_confirmation
  make_msg_noti DbusCommand.dial_call = make_msg_noti_to_hardware DbusCommand.dial_call
  make_msg_noti _ = λ ok info. none
