-- ===== src/Recordmgr/RmSenderFactory.antt =====
-- recordmgr/src/DBus/RMSenderFactory.cpp: the signal that a notification is sent as, if it is sent. A command of
-- its own the record manager sends none.
use raspberrypiservice.Prelude.{Bool, Option, none}
use raspberrypiservice.Common.Define.{DbusCommand}
use raspberrypiservice.Common.DbusData.{DbusDataInfo}
use raspberrypiservice.Common.Dbus.Libdbus.{Libdbus}
use raspberrypiservice.Common.Dbus.Sender.{make_msg_noti_internal}

module _ (l : Libdbus) where
  open l use {Message}

  unfoldable pub make_msg : DbusCommand → Option Message
  make_msg cmd = none

  -- The functions `makeMsgNoti_…`.
  unfoldable pub make_msg_noti_to_core : DbusCommand → Bool → DbusDataInfo → Option Message
  make_msg_noti_to_core cmd ok info =
      make_msg_noti_internal l "/com/example/coremanager" "com.example.coremanager.interface"
        "CoreSignal" cmd ok info

  unfoldable pub make_msg_noti : DbusCommand → Bool → DbusDataInfo → Option Message
  unfolding make_msg_noti_to_core
  make_msg_noti DbusCommand.start_record_noti = make_msg_noti_to_core DbusCommand.start_record_noti
  make_msg_noti DbusCommand.stop_record_noti = make_msg_noti_to_core DbusCommand.stop_record_noti
  make_msg_noti DbusCommand.cancel_record_noti =
      make_msg_noti_to_core DbusCommand.cancel_record_noti
  make_msg_noti DbusCommand.filter_wav_file_noti =
      make_msg_noti_to_core DbusCommand.filter_wav_file_noti
  make_msg_noti _ = λ ok info. none
