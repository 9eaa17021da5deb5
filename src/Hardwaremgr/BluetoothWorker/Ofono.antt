-- ===== src/Hardwaremgr/BluetoothWorker/Ofono.antt =====
-- The signals of oFono: the modem, the phonebook and the call history, and calls.
use Prim.Native.String.{◌++◌ as str_append}
use raspberrypiservice.Prelude.{
  true, ◌||◌, String, List, [], ◌∷◌, Option, none, some, str_eq, if◌then◌else◌,
}
use raspberrypiservice.Common.Define.{DbusCommand}
use raspberrypiservice.Common.Text.{is_empty}
use raspberrypiservice.Common.DbusData.{DbusDataType, DbusDataInfo, set_info}
use raspberrypiservice.Hardwaremgr.Config.{
  ofono_modem_interface, ofono_voicecall_manager_interface, ofono_phonebook_interface,
  ofono_call_history_interface,
}
use raspberrypiservice.Hardwaremgr.Hardware.{Value, Properties, Bus, Hardware, notify}
use raspberrypiservice.Hardwaremgr.Message.{Argument, Message, text_argument}
use raspberrypiservice.Hardwaremgr.OfonoDbus.Containers.{count}
use raspberrypiservice.Hardwaremgr.OfonoDbus.Sync.{
  set_ofono_modem_property, sync_all_ofono_contacts, sync_all_ofono_call_history, message_info,
}
use raspberrypiservice.Hardwaremgr.OfonoDbus.Calls.{
  get_voice_call_properties, set_active_modem_path, clear_active_modem_path, add_active_call_path,
  remove_active_call_path,
}

unfoldable pub handle_modem_added : Bus → Message → Hardware → Hardware
unfolding set_active_modem_path set_ofono_modem_property
handle_modem_added bus m h = elim m.args [
  | Argument.object_path path ∷ _ ↦
      set_ofono_modem_property path "Powered" true bus (set_active_modem_path path h)
  | _ ↦ h
]

unfoldable pub handle_modem_removed : Message → Hardware → Hardware
unfolding clear_active_modem_path
handle_modem_removed m h = elim m.args [
  | Argument.object_path path ∷ _ ↦
      notify DbusCommand.pbap_session_end_noti true
        (message_info "Phone disconnected, clearing contacts and call history.")
        (clear_active_modem_path h)
  | _ ↦ h
]

-- A modem that is powered is to go online; one that is online is read.
unfoldable pub modem_property : Bus → (path key : String) → Value → Hardware → Hardware
unfolding set_ofono_modem_property sync_all_ofono_contacts sync_all_ofono_call_history
modem_property bus path key (Value.flag true) h =
    if str_eq key "Powered"
    then set_ofono_modem_property path "Online" true bus h
    else if str_eq key "Online"
    then sync_all_ofono_call_history path bus (sync_all_ofono_contacts path bus h)
    else h
modem_property bus path key _ h = h

unfoldable pub property_changed : Bus → Message → List Argument → Hardware → Hardware
property_changed bus m (Argument.str key ∷ Argument.variant v ∷ args) h =
    if str_eq m.interface ofono_modem_interface then modem_property bus m.path key v h else h
property_changed bus m _ h = h

unfoldable pub handle_ofono_property_changed : Bus → Message → Hardware → Hardware
unfolding modem_property
handle_ofono_property_changed bus m h = property_changed bus m m.args h

abbrev pub call_detected : DbusDataInfo × Hardware → Hardware
call_detected (info, h) =
    let state = info DbusDataType.call_state in
    let text = str_append "New call detected, state: " state in
    if is_empty state
    then h
    else notify DbusCommand.call_state_changed_noti true (set_info DbusDataType.message text info) h

-- A call that is not known yet is added and announced.
unfoldable pub new_calls : Bus → List String → Hardware → Hardware
unfolding count add_active_call_path get_voice_call_properties
new_calls bus [] h = h
new_calls bus (path ∷ paths) h = new_calls bus paths (
    if count path h.active_call_paths
    then h
    else call_detected (get_voice_call_properties path bus (add_active_call_path path h)))

abbrev pub call_paths : Value → List String
call_paths (Value.object_paths paths) = paths
call_paths _ = []

unfoldable pub ofono_property : Bus → (path interface key : String) → Value → Hardware → Hardware
unfolding new_calls modem_property
ofono_property bus path interface key v h =
    if str_eq interface ofono_voicecall_manager_interface
    then if str_eq key "Calls" then new_calls bus (call_paths v) h else h
    else if str_eq interface ofono_modem_interface
    then modem_property bus path key v h
    else if str_eq interface ofono_phonebook_interface
    then if str_eq key "Contacts" then sync_all_ofono_contacts path bus h else h
    else if str_eq interface ofono_call_history_interface
    then if str_eq key "DialedCount" || str_eq key "MissedCount" || str_eq key "ReceivedCount"
      then sync_all_ofono_call_history path bus h
      else h
    else h

unfoldable pub ofono_properties : Bus → (path interface : String) → Properties → Hardware → Hardware
unfolding ofono_property
ofono_properties bus path interface [] h = h
ofono_properties bus path interface ((key, v) ∷ ps) h =
    ofono_properties bus path interface ps (ofono_property bus path interface key v h)

unfoldable pub handle_ofono_properties_changed : Bus → Message → Hardware → Hardware
unfolding ofono_properties
handle_ofono_properties_changed bus m h = elim m.args [
  | Argument.str interface ∷ Argument.dictionary ps ∷ _ ↦ ofono_properties bus m.path interface ps h
  | _ ↦ h
]

abbrev pub call_updated : DbusDataInfo × Hardware → Hardware
call_updated (info, h) =
    let state = info DbusDataType.call_state in
    let text = str_append "Call state updated to " state in
    if is_empty state
    then h
    else if str_eq state "disconnected"
    then notify DbusCommand.call_ended_noti true (set_info DbusDataType.message "Call ended." info)
        h
    else notify DbusCommand.call_state_changed_noti true (set_info DbusDataType.message text info) h

unfoldable pub voice_call_property : Bus → (path : String) → Option String → Hardware → Hardware
unfolding get_voice_call_properties
voice_call_property bus path none h = h
voice_call_property bus path (some key) h =
    if str_eq key "State" || str_eq key "LineIdentification"
    then call_updated (get_voice_call_properties path bus h)
    else h

unfoldable pub handle_voice_call_property_changed : Bus → Message → Hardware → Hardware
unfolding voice_call_property
handle_voice_call_property_changed bus m h = voice_call_property bus m.path (text_argument m.args) h

unfoldable pub call_removed : Option String → Hardware → Hardware
unfolding count remove_active_call_path
call_removed none h = h
call_removed (some path) h =
    if count path h.active_call_paths
    then notify DbusCommand.call_ended_noti true
        (message_info "Call has been terminated and removed.") (remove_active_call_path path h)
    else h

unfoldable pub handle_call_removed : Message → Hardware → Hardware
unfolding call_removed
handle_call_removed m h = call_removed (text_argument m.args) h

-- A call in another state than these is not announced.
abbrev pub announce_call : DbusDataInfo × Hardware → Hardware
announce_call (info, h) =
    let state = info DbusDataType.call_state in
    if is_empty (info DbusDataType.call_number)
    then h
    else if str_eq state "incoming" || str_eq state "waiting"
    then notify DbusCommand.incoming_call_noti true
        (set_info DbusDataType.message "Incoming call" info) h
    else if str_eq state "dialing" || str_eq state "alerting"
    then notify DbusCommand.outgoing_call_noti true
        (set_info DbusDataType.message "Outgoing call" info) h
    else h

unfoldable pub call_added : Bus → Option String → Hardware → Hardware
unfolding get_voice_call_properties add_active_call_path
call_added bus none h = h
call_added bus (some path) h =
    announce_call (get_voice_call_properties path bus (add_active_call_path path h))

unfoldable pub handle_call_added : Bus → Message → Hardware → Hardware
unfolding call_added
handle_call_added bus m h = call_added bus (text_argument m.args) h
