-- ===== src/Hardwaremgr/BluetoothAgent.antt =====
-- hardwaremgr/src/BT/BluetoothAgent.cpp: BlueZ asks the agent to confirm a pairing, and the request
-- waits until the user answers. A reply can always be made.
pub mod Answers
use Prim.Native.Char.{char}
use raspberrypiservice.Prelude.{
  ℕ, Bool, true, false, String, List, [], ◌∷◌, Option, none, some, pos, if◌then◌else◌,
}
use raspberrypiservice.Common.Define.{DbusCommand}
use raspberrypiservice.Common.Text.{is_empty, replace, after_last}
use raspberrypiservice.Common.Stdlib.{to_string}
use raspberrypiservice.Common.DbusData.{DbusDataType, DbusDataInfo, init_info, set_info}
use raspberrypiservice.Hardwaremgr.Config.{bluez_agent_interface}
use raspberrypiservice.Hardwaremgr.Hardware.{Hardware, notify}
use raspberrypiservice.Hardwaremgr.Message.{Argument, Message, is_method_call}
use raspberrypiservice.Hardwaremgr.OfonoDbus.Containers.{store, find, remove}

-- `sendSimpleReply`: a return, or the error `Rejected`.
unfoldable pub send_simple_reply : ℕ → Bool → Hardware → Hardware
send_simple_reply serial accept h = record h { replies = (serial, accept) ∷ h.replies }

-- From `xx_xx` to `xx:xx`; without a name of a device, the address is empty.
abbrev pub address_in : Option String → String
address_in none = ""
address_in (some s) = replace b'_' ":" s

-- The address in the path of a device, after the last "dev_".
unfoldable pub device_address : String → String
unfolding after_last replace
device_address path = address_in (after_last "dev_" path)

abbrev pub confirmation_info : (address : String) (passkey : ℕ) → DbusDataInfo
confirmation_info address passkey =
    set_info DbusDataType.message "Please confirm the passkey on your device." (
      set_info DbusDataType.bt_pairing_passkey (to_string (pos passkey))
        (set_info DbusDataType.bt_device_address address init_info))

-- An earlier request for the address is dropped without a reply.
unfoldable pub request_confirmation :
    (serial : ℕ) (address : String) (passkey : ℕ) → Hardware → Hardware
unfolding send_simple_reply store
request_confirmation serial address passkey h =
    if is_empty address
    then send_simple_reply serial false h
    else notify DbusCommand.btdevice_request_confirmation_noti true
        (confirmation_info address passkey)
        (record h { pending_confirmations = store address serial h.pending_confirmations })

unfoldable pub handle_request_confirmation : ℕ → List Argument → Hardware → Hardware
unfolding device_address request_confirmation send_simple_reply
handle_request_confirmation serial (Argument.object_path path ∷ Argument.uint32 passkey ∷ args) h =
    request_confirmation serial (device_address path) passkey h
handle_request_confirmation serial _ h = send_simple_reply serial false h

unfoldable pub handle_request_authorization : ℕ → List Argument → Hardware → Hardware
unfolding send_simple_reply
handle_request_authorization serial (Argument.object_path path ∷ args) h =
    send_simple_reply serial true h
handle_request_authorization serial _ h = send_simple_reply serial false h

unfoldable pub handle_request_pin_code : ℕ → Hardware → Hardware
unfolding send_simple_reply
handle_request_pin_code serial h = send_simple_reply serial false h

unfoldable pub handle_display_passkey : ℕ → Hardware → Hardware
unfolding send_simple_reply
handle_display_passkey serial h = send_simple_reply serial false h

-- The pending requests are dropped without a reply.
unfoldable pub handle_release : ℕ → Hardware → Hardware
unfolding send_simple_reply
handle_release serial h = send_simple_reply serial false (record h { pending_confirmations = [] })

unfoldable pub handle_message : Message → Hardware → Hardware
unfolding handle_request_confirmation handle_request_authorization handle_request_pin_code
    handle_display_passkey handle_release
handle_message m h =
    if is_method_call m bluez_agent_interface "RequestConfirmation"
    then handle_request_confirmation m.serial m.args h
    else if is_method_call m bluez_agent_interface "RequestAuthorization"
    then handle_request_authorization m.serial m.args h
    else if is_method_call m bluez_agent_interface "RequestPinCode"
    then handle_request_pin_code m.serial h
    else if is_method_call m bluez_agent_interface "DisplayPasskey"
    then handle_display_passkey m.serial h
    else if is_method_call m bluez_agent_interface "Release"
    then handle_release m.serial h
    else send_simple_reply m.serial false h

-- The request that is pending for the address, if there is one, leaves the map and is answered.
abbrev pub answer_pending : Option ℕ → String → Bool → Hardware → Hardware
answer_pending none address confirmed h = h
answer_pending (some serial) address confirmed h = record h {
  pending_confirmations = remove address h.pending_confirmations;
  replies = (serial, confirmed) ∷ h.replies;
}

unfoldable pub confirm_request : String → Bool → Hardware → Hardware
unfolding find remove
confirm_request address confirmed h =
    answer_pending (find address h.pending_confirmations) address confirmed h
