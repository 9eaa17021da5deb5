-- ===== src/Hardwaremgr/HmSenderFactory.antt =====
-- hardwaremgr/src/DBus/HMSenderFactory.cpp: the signal that a notification is sent as, if it is sent. A command of
-- its own the hardware manager sends none.
use raspberrypiservice.Prelude.{Bool, Option, none}
use raspberrypiservice.Common.Define.{DbusCommand}
use raspberrypiservice.Common.DbusData.{DbusDataInfo}
use raspberrypiservice.Common.Dbus.Libdbus.{Libdbus}
use raspberrypiservice.Common.Dbus.Sender.{make_msg_noti_internal}

module _ (l : Libdbus) where
  open l use {Message}

  unfoldable pub make_msg : DbusCommand → Option Message
  make_msg cmd = none

  -- The functions `makeMsgNoti_…`.
  unfoldable pub make_msg_noti_to_core : DbusCommand → Bool → DbusDataInfo → Option Message
  make_msg_noti_to_core cmd ok info =
      make_msg_noti_internal l "/com/example/coremanager" "com.example.coremanager.interface"
        "CoreSignal" cmd ok info

  unfoldable pub make_msg_noti : DbusCommand → Bool → DbusDataInfo → Option Message
  unfolding make_msg_noti_to_core
  make_msg_noti DbusCommand.update_temperature_noti =
      make_msg_noti_to_core DbusCommand.update_temperature_noti
  make_msg_noti DbusCommand.start_scan_btdevice_noti =
      make_msg_noti_to_core DbusCommand.start_scan_btdevice_noti
  make_msg_noti DbusCommand.stop_scan_btdevice_noti =
      make_msg_noti_to_core DbusCommand.stop_scan_btdevice_noti
  make_msg_noti DbusCommand.scanning_btdevice_found_noti =
      make_msg_noti_to_core DbusCommand.scanning_btdevice_found_noti
  make_msg_noti DbusCommand.scanning_btdevice_delete_noti =
      make_msg_noti_to_core DbusCommand.scanning_btdevice_delete_noti
  make_msg_noti DbusCommand.bluetooth_power_on_noti =
      make_msg_noti_to_core DbusCommand.bluetooth_power_on_noti
  make_msg_noti DbusCommand.bluetooth_power_off_noti =
      make_msg_noti_to_core DbusCommand.bluetooth_power_off_noti
  make_msg_noti DbusCommand.btdevice_property_change_noti =
      make_msg_noti_to_core DbusCommand.btdevice_property_change_noti
  make_msg_noti DbusCommand.pair_btdevice_noti =
      make_msg_noti_to_core DbusCommand.pair_btdevice_noti
  make_msg_noti DbusCommand.unpair_btdevice_noti =
      make_msg_noti_to_core DbusCommand.unpair_btdevice_noti
  make_msg_noti DbusCommand.connect_btdevice_noti =
      make_msg_noti_to_core DbusCommand.connect_btdevice_noti
  make_msg_noti DbusCommand.disconnect_btdevice_noti =
      make_msg_noti_to_core DbusCommand.disconnect_btdevice_noti
  make_msg_noti DbusCommand.btdevice_request_confirmation_noti =
      make_msg_noti_to_core DbusCommand.btdevice_request_confirmation_noti
  make_msg_noti DbusCommand.pbap_phonebook_pull_start_noti =
      make_msg_noti_to_core DbusCommand.pbap_phonebook_pull_start_noti
  make_msg_noti DbusCommand.pbap_phonebook_pull_noti =
      make_msg_noti_to_core DbusCommand.pbap_phonebook_pull_noti
  make_msg_noti DbusCommand.pbap_phonebook_pull_end_noti =
      make_msg_noti_to_core DbusCommand.pbap_phonebook_pull_end_noti
  make_msg_noti DbusCommand.call_history_pull_start_noti =
      make_msg_noti_to_core DbusCommand.call_history_pull_start_noti
  make_msg_noti DbusCommand.call_history_pull_noti =
      make_msg_noti_to_core DbusCommand.call_history_pull_noti
  make_msg_noti DbusCommand.call_history_pull_end_noti =
      make_msg_noti_to_core DbusCommand.call_history_pull_end_noti
  make_msg_noti DbusCommand.pbap_session_end_noti =
      make_msg_noti_to_core DbusCommand.pbap_session_end_noti
  make_msg_noti DbusCommand.incoming_call_noti =
      make_msg_noti_to_core DbusCommand.incoming_call_noti
  make_msg_noti DbusCommand.outgoing_call_noti =
      make_msg_noti_to_core DbusCommand.outgoing_call_noti
  make_msg_noti DbusCommand.call_state_changed_noti =
      make_msg_noti_to_core DbusCommand.call_state_changed_noti
  make_msg_noti DbusCommand.call_ended_noti = make_msg_noti_to_core DbusCommand.call_ended_noti
  make_msg_noti DbusCommand.dial_call_noti = make_msg_noti_to_core DbusCommand.dial_call_noti
  make_msg_noti DbusCommand.answer_call_noti = make_msg_noti_to_core DbusCommand.answer_call_noti
  make_msg_noti DbusCommand.hangup_call_noti = make_msg_noti_to_core DbusCommand.hangup_call_noti
  make_msg_noti _ = λ ok info. none
