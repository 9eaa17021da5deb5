-- ===== src/Hardwaremgr/OfonoDbus/Calls.antt =====
-- Calls: what oFono says of one, dialling, answering and hanging up, the active modem and the
-- active calls.
use Prim.Native.String.{◌++◌ as str_append}
use raspberrypiservice.Prelude.{true, false, ◌||◌, String, List, [], ◌∷◌, str_eq, if◌then◌else◌}
use raspberrypiservice.Common.Define.{DbusCommand}
use raspberrypiservice.Common.Text.{is_empty}
use raspberrypiservice.Common.DbusData.{DbusDataType, DbusDataInfo, init_info, set_info}
use raspberrypiservice.Hardwaremgr.Config.{
  ofono_service_name, ofono_voicecall_manager_interface, ofono_voicecall_interface,
}
use raspberrypiservice.Hardwaremgr.Hardware.{CallArg, call, Answer, Bus, Hardware, notify, ask}
use raspberrypiservice.Hardwaremgr.OfonoDbus.Containers.{insert, erase}
use raspberrypiservice.Hardwaremgr.OfonoDbus.Sync.{
  entry_properties, properties_of, find_name_by_number, get_all, message_info,
}

-- The name of the caller, once the properties are read.
abbrev pub name_call : DbusDataInfo → Hardware → DbusDataInfo
name_call info h =
    let number = info DbusDataType.call_number in
    if is_empty number
    then info
    else set_info DbusDataType.call_name (find_name_by_number number h) info

abbrev pub voice_call : Answer × Hardware → DbusDataInfo × Hardware
voice_call (Answer.replied r, h) =
    let info =
      entry_properties "LineIdentification" DbusDataType.call_number "State" DbusDataType.call_state
        (properties_of r) init_info in
    (name_call info h, h)
voice_call (_, h) = (init_info, h)

unfoldable pub get_voice_call_properties : String → Bus → Hardware → DbusDataInfo × Hardware
unfolding entry_properties find_name_by_number
get_voice_call_properties path bus h =
    voice_call (ask bus (get_all path ofono_voicecall_interface) h)

-- What is reported of a command to oFono: a message that could not be made, an error, or success.
abbrev pub outcome : DbusCommand → (unmade error done : String) → Answer × Hardware → Hardware
outcome cmd unmade error done (Answer.no_message, h) = notify cmd false (message_info unmade) h
outcome cmd unmade error done (Answer.failed e, h) =
    notify cmd false (message_info (str_append error e)) h
outcome cmd unmade error done (_, h) = notify cmd true (message_info done) h

abbrev pub dial : String → Bus → Hardware → Hardware
dial number bus h =
    outcome DbusCommand.dial_call_noti "Failed to create Dial message." "Error dialing number: "
      "Dial command sent successfully."
      (ask bus
        (call ofono_service_name h.modem_path ofono_voicecall_manager_interface "Dial"
          (CallArg.text_arg number ∷ CallArg.text_arg "" ∷ []))
        h)

unfoldable pub dial_call : String → Bus → Hardware → Hardware
dial_call number bus h =
    if is_empty h.modem_path
    then notify DbusCommand.dial_call_noti false
        (message_info "Cannot dial call, no active modem path set.") h
    else dial number bus h

-- The loop over the active calls: the path of the first that is incoming or waiting, or the empty
-- text.
unfoldable pub incoming_call : List String → Bus → Hardware → String × Hardware
unfolding get_voice_call_properties
incoming_call [] bus h = ("", h)
incoming_call (path ∷ paths) bus h =
    let (props, h') = get_voice_call_properties path bus h in
    let state = props DbusDataType.call_state in
    let rest = incoming_call paths bus h' in
    if str_eq state "incoming" || str_eq state "waiting" then (path, h') else rest

abbrev pub answer_path : Bus → String × Hardware → Hardware
answer_path bus (path, h) =
    if is_empty path
    then notify DbusCommand.answer_call_noti false
        (message_info "No incoming call found to answer.") h
    else outcome DbusCommand.answer_call_noti "Failed to create Answer message."
        "Error answering call: " "Call answered successfully."
        (ask bus (call ofono_service_name path ofono_voicecall_interface "Answer" []) h)

abbrev pub answer_first : List String → Bus → Hardware → Hardware
answer_first [] bus h =
    notify DbusCommand.answer_call_noti false (message_info "No active calls to answer.") h
answer_first (path ∷ paths) bus h = answer_path bus (incoming_call (path ∷ paths) bus h)

unfoldable pub answer_call : Bus → Hardware → Hardware
unfolding incoming_call
answer_call bus h = answer_first h.active_call_paths bus h

-- Without a modem, nothing is sent.
unfoldable pub hangup_call : Bus → Hardware → Hardware
hangup_call bus h =
    if is_empty h.modem_path
    then h
    else outcome DbusCommand.hangup_call_noti "Failed to create HangupAll message."
        "Error hanging up calls: " "All calls hung up successfully."
        (ask bus
          (call ofono_service_name h.modem_path ofono_voicecall_manager_interface "HangupAll" []) h)

unfoldable pub set_active_modem_path : String → Hardware → Hardware
set_active_modem_path path h = record h { modem_path = path }

unfoldable pub clear_active_modem_path : Hardware → Hardware
clear_active_modem_path h = record h { modem_path = ""; active_call_paths = []; phonebook = [] }

unfoldable pub add_active_call_path : String → Hardware → Hardware
unfolding insert
add_active_call_path path h = record h { active_call_paths = insert path h.active_call_paths }

unfoldable pub remove_active_call_path : String → Hardware → Hardware
unfolding erase
remove_active_call_path path h = record h { active_call_paths = erase path h.active_call_paths }
