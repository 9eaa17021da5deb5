-- ===== src/Hardwaremgr/OfonoDbus/Sync.antt =====
-- The phonebook and the call history: each is read from oFono object by object, and every entry is
-- announced to the core manager between a notification of the start and one of the end.
use raspberrypiservice.Prelude.{
  ℕ, Bool, true, ◌||◌, String, List, [], ◌∷◌, take, str_eq, if◌then◌else◌,
}
use raspberrypiservice.Common.Define.{DbusCommand}
use raspberrypiservice.Common.Text.{is_empty}
use raspberrypiservice.Common.DbusData.{DbusDataType, DbusDataInfo, init_info, set_info}
use raspberrypiservice.Hardwaremgr.Config.{
  ofono_service_name, ofono_modem_interface, ofono_phonebook_interface, ofono_contact_interface,
  ofono_call_history_interface, dbus_properties_interface,
}
use raspberrypiservice.Hardwaremgr.Hardware.{
  Value, Properties, CallArg, Call, call, Reply, Answer, Bus, Hardware, notify, ask,
}
use raspberrypiservice.Hardwaremgr.OfonoDbus.Containers.{store, lookup}

-- The answers of these two calls are only logged.
unfoldable pub set_ofono_phonebook_storage : (modem storage : String) → Bus → Hardware → Hardware
set_ofono_phonebook_storage modem storage bus h =
    let args =
      CallArg.text_arg ofono_phonebook_interface
      ∷ CallArg.text_arg "Storage"
      ∷ CallArg.text_arg storage
      ∷ [] in
    (ask bus (call ofono_service_name modem dbus_properties_interface "Set" args) h).1

unfoldable pub set_ofono_modem_property :
    (modem property : String) → Bool → Bus → Hardware → Hardware
set_ofono_modem_property modem property value bus h =
    let args = CallArg.text_arg property ∷ CallArg.flag_arg value ∷ [] in
    (ask bus (call ofono_service_name modem ofono_modem_interface "SetProperty" args) h).1

unfoldable pub find_name_by_number : String → Hardware → String
unfolding lookup
find_name_by_number number h = lookup number h.phonebook

-- A property of an entry: the keys `a` and `b` are stored if the variant is a string.
abbrev pub entry_property :
    (a : String) (k : DbusDataType) (b : String) (l : DbusDataType)
    → String
    → Value
    → DbusDataInfo
    → DbusDataInfo
entry_property a k b l key (Value.text s) info =
    if str_eq key a then set_info k s info else if str_eq key b then set_info l s info else info
entry_property a k b l key _ info = info

-- The loop over the properties.
unfoldable pub entry_properties :
    (a : String) (k : DbusDataType) (b : String) (l : DbusDataType)
    → Properties
    → DbusDataInfo
    → DbusDataInfo
entry_properties a k b l [] info = info
entry_properties a k b l ((key, v) ∷ ps) info =
    entry_properties a k b l ps (entry_property a k b l key v info)

-- The properties of a reply; `none` of the other answers has any.
abbrev pub properties_of : Reply → Properties
properties_of (Reply.properties ps) = ps
properties_of _ = []

-- A contact with a name and a number is kept and announced.
abbrev pub keep_contact : DbusDataInfo → Hardware → Hardware
keep_contact info h =
    let name = info DbusDataType.contact_name in
    let number = info DbusDataType.contact_number in
    if is_empty name || is_empty number
    then h
    else notify DbusCommand.pbap_phonebook_pull_noti true
        (set_info DbusDataType.message "New contact pulled." info)
        (record h { phonebook = store number name h.phonebook })

unfoldable pub contact_info : Reply → DbusDataInfo
unfolding entry_properties
contact_info r =
    entry_properties "Name" DbusDataType.contact_name "Mobile" DbusDataType.contact_number
      (properties_of r) init_info

abbrev pub contact : Answer × Hardware → Hardware
contact (Answer.replied r, h) = keep_contact (contact_info r) h
contact (_, h) = h

unfoldable pub get_ofono_contact_details : String → Bus → Hardware → Hardware
unfolding contact_info store
get_ofono_contact_details path bus h =
    contact (ask bus (call ofono_service_name path ofono_contact_interface "GetProperties" []) h)

unfoldable pub contact_list : List String → Bus → Hardware → Hardware
unfolding get_ofono_contact_details
contact_list [] bus h = h
contact_list (path ∷ paths) bus h = contact_list paths bus (get_ofono_contact_details path bus h)

-- The first entry of the key `Contacts`, after which the loop breaks.
unfoldable pub contact_paths : Properties → List String
contact_paths [] = []
contact_paths ((key, Value.object_paths paths) ∷ ps) =
    let rest = contact_paths ps in if str_eq key "Contacts" then paths else rest
contact_paths ((key, _) ∷ ps) =
    let rest = contact_paths ps in if str_eq key "Contacts" then [] else rest

abbrev pub contacts : Bus → Answer × Hardware → Hardware
contacts bus (Answer.replied r, h) = contact_list (contact_paths (properties_of r)) bus h
contacts bus (_, h) = h

unfoldable pub get_ofono_contacts : String → Bus → Hardware → Hardware
unfolding contact_list contact_paths
get_ofono_contacts modem bus h =
    contacts bus
      (ask bus (call ofono_service_name modem ofono_phonebook_interface "GetProperties" []) h)

abbrev pub message_info : String → DbusDataInfo
message_info text = set_info DbusDataType.message text init_info

unfoldable pub sync_all_ofono_contacts : String → Bus → Hardware → Hardware
unfolding get_ofono_contacts set_ofono_phonebook_storage
sync_all_ofono_contacts modem bus h =
    let start = message_info "Starting phonebook sync. Clear existing contacts." in
    let h1 =
      notify DbusCommand.pbap_phonebook_pull_start_noti true start (record h { phonebook = [] }) in
    let h2 = get_ofono_contacts modem bus (set_ofono_phonebook_storage modem "sm" bus h1) in
    let h3 = get_ofono_contacts modem bus (set_ofono_phonebook_storage modem "me" bus h2) in
    notify DbusCommand.pbap_phonebook_pull_end_noti true (message_info "Phonebook sync complete.")
      h3

-- A call that is not in the phonebook has the name "Unknown".
abbrev pub named : String → String
named name = if is_empty name then "Unknown" else name

abbrev pub keep_call : DbusDataInfo → Hardware → Hardware
keep_call info h =
    let number = info DbusDataType.call_history_number in
    let name = named (find_name_by_number number h) in
    if is_empty number
    then h
    else notify DbusCommand.call_history_pull_noti true
        (set_info DbusDataType.message "New call history item pulled."
          (set_info DbusDataType.call_history_name name info))
        h

unfoldable pub call_info : (type : String) → Reply → DbusDataInfo
unfolding entry_properties
call_info type r =
    entry_properties "LineIdentification" DbusDataType.call_history_number "StartTime"
      DbusDataType.call_history_datetime (properties_of r)
      (set_info DbusDataType.call_history_type type init_info)

abbrev pub call_details : (type : String) → Answer × Hardware → Hardware
call_details type (Answer.replied r, h) = keep_call (call_info type r) h
call_details type (_, h) = h

abbrev pub get_all : (path interface : String) → Call
get_all path interface =
    call ofono_service_name path dbus_properties_interface "GetAll"
      (CallArg.text_arg interface ∷ [])

unfoldable pub get_ofono_call_details : (path type : String) → Bus → Hardware → Hardware
unfolding call_info find_name_by_number
get_ofono_call_details path type bus h =
    call_details type (ask bus (get_all path "org.ofono.Call") h)

unfoldable pub call_list : List String → (type : String) → Bus → Hardware → Hardware
unfolding get_ofono_call_details
call_list [] type bus h = h
call_list (path ∷ paths) type bus h =
    call_list paths type bus (get_ofono_call_details path type bus h)

abbrev pub max_history_items : ℕ
max_history_items = 50

abbrev pub call_history : (type : String) → Bus → Answer × Hardware → Hardware
call_history type bus (Answer.replied (Reply.paths paths), h) =
    call_list (take max_history_items paths) type bus h
call_history type bus (_, h) = h

unfoldable pub get_ofono_call_history : (modem type : String) → Bus → Hardware → Hardware
unfolding call_list
get_ofono_call_history modem type bus h = call_history type bus (
    ask bus
      (call ofono_service_name modem ofono_call_history_interface "GetHistory"
        (CallArg.text_arg type ∷ []))
      h)

unfoldable pub sync_all_ofono_call_history : String → Bus → Hardware → Hardware
unfolding get_ofono_call_history
sync_all_ofono_call_history modem bus h =
    let start = message_info "Starting call history sync. Clear existing history." in
    let h1 = notify DbusCommand.call_history_pull_start_noti true start h in
    let h2 = get_ofono_call_history modem "dialed" bus h1 in
    let h3 = get_ofono_call_history modem "received" bus h2 in
    let h4 = get_ofono_call_history modem "missed" bus h3 in
    notify DbusCommand.call_history_pull_end_noti true (message_info "Call history sync complete.")
      h4
