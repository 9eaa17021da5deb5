-- ===== src/Common/Dbus/Sender.antt =====
-- common/src/DBus/ISenderFactory.cpp and common/src/DBus/DBusSenderBase.cpp. The factory of a manager
-- is `make_msg` and `make_msg_noti`; `connected` and `sent` say whether there is a connection, and
-- whether libdbus takes a message.
use Prim.Native.Char.{code}
use raspberrypiservice.Prelude.{
  Bool, ◌&&◌, String, List, [], ◌∷◌, Option, none, some, pos, is_some, map, ◌==◌, ◌>>=◌,
  if◌then◌else◌,
}
use raspberrypiservice.Common.Define.{DbusCommand}
use raspberrypiservice.Common.DbusData.{DbusDataType, DbusDataInfo}
use raspberrypiservice.Common.Dbus.Values.{command_value}
use raspberrypiservice.Common.Dbus.Libdbus.{Libdbus}

-- `c_str()`, which ends at a null character.
unfoldable pub c_str : String → String
c_str String.[] = ""
c_str (String.◌∷◌ c s) = let rest = c_str s in if code c == 0 then "" else String.◌∷◌ c rest

-- The indices of the array, in their order.
abbrev pub data_types : List DbusDataType
data_types =
    DbusDataType.message ∷ DbusDataType.temperature_value ∷ DbusDataType.bt_device_name
    ∷ DbusDataType.bt_device_address ∷ DbusDataType.bt_device_rssi ∷ DbusDataType.bt_device_paired
    ∷ DbusDataType.bt_device_connected ∷ DbusDataType.bt_device_trusted
    ∷ DbusDataType.bt_device_icon ∷ DbusDataType.bt_adapter_powered
    ∷ DbusDataType.bt_adapter_discovering ∷ DbusDataType.bt_adapter_discoverable
    ∷ DbusDataType.bt_pairing_passkey ∷ DbusDataType.contact_name ∷ DbusDataType.contact_number
    ∷ DbusDataType.call_number ∷ DbusDataType.call_name ∷ DbusDataType.call_state
    ∷ DbusDataType.call_history_name ∷ DbusDataType.call_history_number
    ∷ DbusDataType.call_history_type ∷ DbusDataType.call_history_datetime
    ∷ DbusDataType.wav_file_path ∷ DbusDataType.wav_file_duration_sec ∷ []

module _ (l : Libdbus) where
  open l use {
    Message, Array, new_signal, append_int32, append_boolean, open_container, append_string,
    close_container, has_valid_type, get_path, get_interface,
  }

  unfoldable pub make_msg_internal : (path interface signal : String) → DbusCommand → Option Message
  make_msg_internal path interface signal cmd = do
    m ← new_signal path interface signal
    append_int32 (pos (command_value cmd)) m

  -- The loop over the array.
  unfoldable pub append_strings : List String → Array → Option Array
  append_strings [] a = some a
  append_strings (s ∷ ss) a = do a' ← append_string s a; append_strings ss a'

  -- The whole array, as the last argument of a message.
  unfoldable pub append_array : List String → Message → Option Message
  unfolding append_strings
  append_array ss m = do a ← open_container m; a' ← append_strings ss a; close_container a'

  abbrev pub data_texts : DbusDataInfo → List String
  data_texts info = map (λ k. c_str (info k)) data_types

  unfoldable pub make_msg_noti_internal :
      (path interface signal : String) → DbusCommand → Bool → DbusDataInfo → Option Message
  unfolding append_array
  make_msg_noti_internal path interface signal cmd ok info = do
    m ← new_signal path interface signal
    m' ← append_int32 (pos (command_value cmd)) m
    m'' ← append_boolean ok m'
    append_array (data_texts info) m''

  unfoldable pub is_msg_valid : Message → Bool
  is_msg_valid m = has_valid_type m && is_some (get_path m) && is_some (get_interface m)

  -- The message that leaves, if one does.
  unfoldable pub send_message_internal : (connected sent : Bool) → Message → Option Message
  unfolding is_msg_valid
  send_message_internal connected sent m =
      if connected && is_msg_valid m && sent then some m else none

  unfoldable pub send_message :
      (DbusCommand → Option Message) → (connected sent : Bool) → DbusCommand → Option Message
  unfolding send_message_internal
  send_message make_msg connected sent cmd = do
    m ← make_msg cmd
    send_message_internal connected sent m

  unfoldable pub send_message_noti :
      (DbusCommand → Bool → DbusDataInfo → Option Message)
      → (connected sent : Bool) → DbusCommand
      → Bool
      → DbusDataInfo
      → Option Message
  unfolding send_message_internal
  send_message_noti make_msg_noti connected sent cmd ok info = do
    m ← make_msg_noti cmd ok info
    send_message_internal connected sent m
