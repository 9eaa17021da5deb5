-- ===== src/Hardwaremgr/Notifications/Ofono.antt =====
-- What is announced of the phone: its contacts, its call history and its calls.
use raspberrypiservice.Prelude.{◌≡◌, refl, Bool, true, String, List, [], ◌∷◌, take}
use raspberrypiservice.Common.Define.{DbusCommand}
use raspberrypiservice.Common.DbusData.{DbusDataType, DbusDataInfo, init_info, set_info}
use raspberrypiservice.Hardwaremgr.Hardware.{Value, Properties, Reply, Answer, Bus, Hardware}
use raspberrypiservice.Hardwaremgr.OfonoDbus.Sync.{
  set_ofono_phonebook_storage, set_ofono_modem_property, entry_property, entry_properties,
  properties_of, keep_contact, contact_info, contact, get_ofono_contact_details, contact_list,
  contact_paths, contacts, get_ofono_contacts, message_info, sync_all_ofono_contacts, keep_call,
  call_info, call_details, get_ofono_call_details, call_list, call_history, max_history_items,
  get_ofono_call_history, sync_all_ofono_call_history,
}
use raspberrypiservice.Hardwaremgr.Notifications.Parsed.{
  HasNumbers, is_text, init_info-HasNumbers, set_info-HasNumbers, if-HasNumbers,
}
use raspberrypiservice.Hardwaremgr.Notifications.Fit.{
  Fit, if-Fit, notify-Fit, message-HasNumbers, with_message-HasNumbers,
}
use raspberrypiservice.Hardwaremgr.Notifications.Bluez.{ask-Fit}

pub set_ofono_modem_property-Fit :
    (modem property : String) (value : Bool) (bus : Bus) (h : Hardware)
    → Fit h
    → Fit (set_ofono_modem_property modem property value bus h)
unfolding set_ofono_modem_property
set_ofono_modem_property-Fit modem property value bus h f = search ask-Fit

set_ofono_phonebook_storage-Fit :
    (modem storage : String) (bus : Bus) (h : Hardware)
    → Fit h
    → Fit (set_ofono_phonebook_storage modem storage bus h)
unfolding set_ofono_phonebook_storage
set_ofono_phonebook_storage-Fit modem storage bus h f = search ask-Fit

entry_property-HasNumbers :
    (a : String) (k : DbusDataType) (b : String) (l : DbusDataType) (key : String) (v : Value)
    (info : DbusDataInfo)
    → is_text k ≡ true
    → is_text l ≡ true
    → HasNumbers info
    → HasNumbers (entry_property a k b l key v info)
entry_property-HasNumbers a k b l key (Value.text s) info t u n =
    search (if-HasNumbers, set_info-HasNumbers)
entry_property-HasNumbers a k b l key _ info t u n = n

pub entry_properties-HasNumbers :
    (a : String) (k : DbusDataType) (b : String) (l : DbusDataType) (ps : Properties)
    (info : DbusDataInfo)
    → is_text k ≡ true
    → is_text l ≡ true
    → HasNumbers info
    → HasNumbers (entry_properties a k b l ps info)
unfolding entry_properties
entry_properties-HasNumbers a k b l [] info t u n = n
entry_properties-HasNumbers a k b l ((key, v) ∷ ps) info t u n =
    entry_properties-HasNumbers a k b l ps (entry_property a k b l key v info) t u
      (entry_property-HasNumbers a k b l key v info t u n)

keep_contact-Fit :
    (info : DbusDataInfo) (h : Hardware) → HasNumbers info → Fit h → Fit (keep_contact info h)
keep_contact-Fit info h n f = search (if-Fit, with_message-HasNumbers)

contact_info-HasNumbers : (r : Reply) → HasNumbers (contact_info r)
unfolding contact_info
contact_info-HasNumbers r =
    entry_properties-HasNumbers "Name" DbusDataType.contact_name "Mobile"
      DbusDataType.contact_number (properties_of r) init_info refl refl init_info-HasNumbers

contact-Fit : (x : Answer × Hardware) → Fit x.1 → Fit (contact x)
contact-Fit (Answer.replied r, h) f =
    keep_contact-Fit (contact_info r) h (contact_info-HasNumbers r) f
contact-Fit (_, h) f = f

contact_list-Fit :
    (paths : List String) (bus : Bus) (h : Hardware) → Fit h → Fit (contact_list paths bus h)
unfolding contact_list get_ofono_contact_details
contact_list-Fit [] bus h f = f
contact_list-Fit (path ∷ paths) bus h f =
    contact_list-Fit paths bus (get_ofono_contact_details path bus h)
      (search (contact-Fit, ask-Fit))

contacts-Fit : (bus : Bus) (x : Answer × Hardware) → Fit x.1 → Fit (contacts bus x)
contacts-Fit bus (Answer.replied r, h) f =
    contact_list-Fit (contact_paths (properties_of r)) bus h f
contacts-Fit bus (_, h) f = f

get_ofono_contacts-Fit :
    (modem : String) (bus : Bus) (h : Hardware) → Fit h → Fit (get_ofono_contacts modem bus h)
unfolding get_ofono_contacts
get_ofono_contacts-Fit modem bus h f = search (contacts-Fit, ask-Fit)

pub sync_all_ofono_contacts-Fit :
    (modem : String) (bus : Bus) (h : Hardware) → Fit h → Fit (sync_all_ofono_contacts modem bus h)
unfolding sync_all_ofono_contacts
sync_all_ofono_contacts-Fit modem bus h f =
    let cleared : Fit (record h { phonebook = [] }) = record { all_fit = f.all_fit } in
    let start =
      notify-Fit DbusCommand.pbap_phonebook_pull_start_noti true
        (message_info "Starting phonebook sync. Clear existing contacts.")
        (record h { phonebook = [] }) refl
        (message-HasNumbers "Starting phonebook sync. Clear existing contacts.") cleared in
    let sim =
      get_ofono_contacts-Fit modem bus _ (set_ofono_phonebook_storage-Fit modem "sm" bus _ start) in
    let phone =
      get_ofono_contacts-Fit modem bus _ (set_ofono_phonebook_storage-Fit modem "me" bus _ sim) in
    notify-Fit DbusCommand.pbap_phonebook_pull_end_noti true
      (message_info "Phonebook sync complete.") _ refl
      (message-HasNumbers "Phonebook sync complete.") phone

keep_call-Fit :
    (info : DbusDataInfo) (h : Hardware) → HasNumbers info → Fit h → Fit (keep_call info h)
keep_call-Fit info h n f = search (if-Fit, notify-Fit, with_message-HasNumbers, set_info-HasNumbers)

call_info-HasNumbers : (type : String) (r : Reply) → HasNumbers (call_info type r)
unfolding call_info
call_info-HasNumbers type r =
    entry_properties-HasNumbers "LineIdentification" DbusDataType.call_history_number "StartTime"
      DbusDataType.call_history_datetime (properties_of r)
      (set_info DbusDataType.call_history_type type init_info) refl refl
      (set_info-HasNumbers DbusDataType.call_history_type type init_info refl init_info-HasNumbers)

call_details-Fit : (type : String) (x : Answer × Hardware) → Fit x.1 → Fit (call_details type x)
call_details-Fit type (Answer.replied r, h) f =
    keep_call-Fit (call_info type r) h (call_info-HasNumbers type r) f
call_details-Fit type (_, h) f = f

call_list-Fit :
    (paths : List String) (type : String) (bus : Bus) (h : Hardware)
    → Fit h
    → Fit (call_list paths type bus h)
unfolding call_list get_ofono_call_details
call_list-Fit [] type bus h f = f
call_list-Fit (path ∷ paths) type bus h f =
    call_list-Fit paths type bus (get_ofono_call_details path type bus h)
      (search (call_details-Fit, ask-Fit))

call_history-Fit :
    (type : String) (bus : Bus) (x : Answer × Hardware) → Fit x.1 → Fit (call_history type bus x)
call_history-Fit type bus (Answer.replied (Reply.paths paths), h) f =
    call_list-Fit (take max_history_items paths) type bus h f
call_history-Fit type bus (_, h) f = f

get_ofono_call_history-Fit :
    (modem type : String) (bus : Bus) (h : Hardware)
    → Fit h
    → Fit (get_ofono_call_history modem type bus h)
unfolding get_ofono_call_history
get_ofono_call_history-Fit modem type bus h f = search (call_history-Fit, ask-Fit)

pub sync_all_ofono_call_history-Fit :
    (modem : String) (bus : Bus) (h : Hardware)
    → Fit h
    → Fit (sync_all_ofono_call_history modem bus h)
unfolding sync_all_ofono_call_history
sync_all_ofono_call_history-Fit modem bus h f =
    let start =
      notify-Fit DbusCommand.call_history_pull_start_noti true
        (message_info "Starting call history sync. Clear existing history.") h refl
        (message-HasNumbers "Starting call history sync. Clear existing history.") f in
    let dialed = get_ofono_call_history-Fit modem "dialed" bus _ start in
    let received = get_ofono_call_history-Fit modem "received" bus _ dialed in
    let missed = get_ofono_call_history-Fit modem "missed" bus _ received in
    notify-Fit DbusCommand.call_history_pull_end_noti true
      (message_info "Call history sync complete.") _ refl
      (message-HasNumbers "Call history sync complete.") missed
