-- ===== src/Common/Dbus/Receiver.antt =====
-- common/src/Thread/DBusReceiverBase.cpp: a signal becomes a call of `handleMessage` or of
-- `handleMessageNoti`.
use raspberrypiservice.Prelude.{
  Bool, String, List, [], ◌∷◌, Option, none, some, str_eq, if◌then◌else◌,
}
use raspberrypiservice.Common.Define.{DbusCommand}
use raspberrypiservice.Common.DbusData.{DbusDataType, DbusDataInfo, init_info, set_info}
use raspberrypiservice.Common.Dbus.Values.{command_cast}
use raspberrypiservice.Common.Dbus.Libdbus.{Item, Libdbus}
use raspberrypiservice.Common.Dbus.Sender.{data_types}

-- The call that is made, if one is; the number of a command may be that of none.
pub data Dispatched : Type 0 where
  nothing : Dispatched
  message : Option DbusCommand → Dispatched
  message_noti : Option DbusCommand → Bool → DbusDataInfo → Dispatched

-- The loop over the array, which ends with the shorter of the array and the indices.
unfoldable pub fill : List DbusDataType → List String → DbusDataInfo → DbusDataInfo
fill [] ss info = info
fill (k ∷ ks) [] info = info
fill (k ∷ ks) (s ∷ ss) info = fill ks ss (set_info k s info)

abbrev pub dispatch_command : List Item → Dispatched
dispatch_command (Item.int32 n ∷ []) = message (command_cast n)
dispatch_command _ = nothing

unfoldable pub dispatch_noti : List Item → Dispatched
unfolding fill
dispatch_noti (Item.int32 n ∷ Item.boolean ok ∷ Item.strings ss ∷ _) =
    message_noti (command_cast n) ok (fill data_types ss init_info)
dispatch_noti _ = nothing

unfoldable pub dispatch_as : Option String → List Item → Dispatched
unfolding dispatch_noti
dispatch_as none args = nothing
dispatch_as (some signature) args =
    if str_eq signature "i"
    then dispatch_command args
    else if str_eq signature "ibas"
    then dispatch_noti args
    else nothing

module _ (l : Libdbus) where
  open l use {Message, is_signal, get_signature, get_args}

  unfoldable pub dispatch_message : Message → Dispatched
  unfolding dispatch_as
  dispatch_message m = dispatch_as (get_signature m) (get_args m)

  -- What `threadFunction` makes of a message: only the signal of the manager is dispatched.
  unfoldable pub received_message : (interface signal : String) → Message → Dispatched
  unfolding dispatch_message
  received_message interface signal m =
      if is_signal m interface signal then dispatch_message m else nothing
