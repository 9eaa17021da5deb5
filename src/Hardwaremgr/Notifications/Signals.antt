-- ===== src/Hardwaremgr/Notifications/Signals.antt =====
-- What is announced when a signal of oFono comes.
use raspberrypiservice.Prelude.{true, String, List, [], ◌∷◌, Option, none, some}
use raspberrypiservice.Common.DbusData.{DbusDataInfo}
use raspberrypiservice.Hardwaremgr.Hardware.{Value, Properties, Bus, Hardware}
use raspberrypiservice.Hardwaremgr.Message.{Argument, Message}
use raspberrypiservice.Hardwaremgr.OfonoDbus.Calls.{
  set_active_modem_path, clear_active_modem_path, add_active_call_path, remove_active_call_path,
}
use raspberrypiservice.Hardwaremgr.BluetoothWorker.Ofono.{
  handle_modem_added, handle_modem_removed, modem_property, property_changed, call_detected,
  new_calls, ofono_property, ofono_properties, handle_ofono_properties_changed, call_updated,
  voice_call_property, call_removed, announce_call, call_added,
}
use raspberrypiservice.Hardwaremgr.Notifications.Parsed.{HasNumbers}
use raspberrypiservice.Hardwaremgr.Notifications.Fit.{
  Fit, if-Fit, notify-Fit, message-HasNumbers, with_message-HasNumbers,
}
use raspberrypiservice.Hardwaremgr.Notifications.Ofono.{
  set_ofono_modem_property-Fit, sync_all_ofono_contacts-Fit, sync_all_ofono_call_history-Fit,
}
use raspberrypiservice.Hardwaremgr.Notifications.Calls.{FitCall, get_voice_call_properties-FitCall}

-- Changes of the state that send nothing.
set_active_modem_path-Fit :
    (path : String) (h : Hardware) → Fit h → Fit (set_active_modem_path path h)
unfolding set_active_modem_path
set_active_modem_path-Fit path h f = record { all_fit = f.all_fit }

clear_active_modem_path-Fit : (h : Hardware) → Fit h → Fit (clear_active_modem_path h)
unfolding clear_active_modem_path
clear_active_modem_path-Fit h f = record { all_fit = f.all_fit }

add_active_call_path-Fit :
    (path : String) (h : Hardware) → Fit h → Fit (add_active_call_path path h)
unfolding add_active_call_path
add_active_call_path-Fit path h f = record { all_fit = f.all_fit }

remove_active_call_path-Fit :
    (path : String) (h : Hardware) → Fit h → Fit (remove_active_call_path path h)
unfolding remove_active_call_path
remove_active_call_path-Fit path h f = record { all_fit = f.all_fit }

pub modem_added-Fit :
    (args : List Argument) (bus : Bus) (m : Message) (h : Hardware)
    → Fit h
    → Fit (handle_modem_added bus (record m { args = args }) h)
unfolding handle_modem_added
modem_added-Fit (Argument.object_path path ∷ rest) bus m h f =
    search (set_ofono_modem_property-Fit, set_active_modem_path-Fit)
modem_added-Fit _ bus m h f = f

pub modem_removed-Fit :
    (args : List Argument) (m : Message) (h : Hardware)
    → Fit h
    → Fit (handle_modem_removed (record m { args = args }) h)
unfolding handle_modem_removed
modem_removed-Fit (Argument.object_path path ∷ rest) m h f = search (message-HasNumbers)
modem_removed-Fit _ m h f = f

modem_property-Fit :
    (bus : Bus) (path key : String) (v : Value) (h : Hardware)
    → Fit h
    → Fit (modem_property bus path key v h)
unfolding modem_property
modem_property-Fit bus path key (Value.flag true) h f = search (
  if-Fit, set_ofono_modem_property-Fit, sync_all_ofono_contacts-Fit,
  sync_all_ofono_call_history-Fit,
)
modem_property-Fit bus path key _ h f = f

pub property_changed-Fit :
    (bus : Bus) (m : Message) (args : List Argument) (h : Hardware)
    → Fit h
    → Fit (property_changed bus m args h)
unfolding property_changed
property_changed-Fit bus m (Argument.str key ∷ Argument.variant v ∷ rest) h f =
    search (if-Fit, modem_property-Fit)
property_changed-Fit bus m _ h f = f

call_detected-Fit : (x : DbusDataInfo × Hardware) → FitCall x → Fit (call_detected x)
call_detected-Fit (info, h) c =
    let n : HasNumbers info = c.fit_info in
    let f : Fit h = c.fit_rest in search (if-Fit, notify-Fit, with_message-HasNumbers)

new_calls-Fit :
    (bus : Bus) (paths : List String) (h : Hardware) → Fit h → Fit (new_calls bus paths h)
unfolding new_calls
new_calls-Fit bus [] h f = f
new_calls-Fit bus (path ∷ paths) h f = new_calls-Fit bus paths _ (
    search (if-Fit, call_detected-Fit, get_voice_call_properties-FitCall, add_active_call_path-Fit))

ofono_property-Fit :
    (bus : Bus) (path interface key : String) (v : Value) (h : Hardware)
    → Fit h
    → Fit (ofono_property bus path interface key v h)
unfolding ofono_property
ofono_property-Fit bus path interface key v h f =
    search
      (
        if-Fit, new_calls-Fit, modem_property-Fit, sync_all_ofono_contacts-Fit,
        sync_all_ofono_call_history-Fit,
      )
      depth 12

ofono_properties-Fit :
    (bus : Bus) (path interface : String) (ps : Properties) (h : Hardware)
    → Fit h
    → Fit (ofono_properties bus path interface ps h)
unfolding ofono_properties
ofono_properties-Fit bus path interface [] h f = f
ofono_properties-Fit bus path interface ((key, v) ∷ ps) h f =
    ofono_properties-Fit bus path interface ps (ofono_property bus path interface key v h)
      (ofono_property-Fit bus path interface key v h f)

pub ofono_properties_changed-Fit :
    (args : List Argument) (bus : Bus) (m : Message) (h : Hardware)
    → Fit h
    → Fit (handle_ofono_properties_changed bus (record m { args = args }) h)
unfolding handle_ofono_properties_changed
ofono_properties_changed-Fit (Argument.str interface ∷ Argument.dictionary ps ∷ rest) bus m h f =
    ofono_properties-Fit bus m.path interface ps h f
ofono_properties_changed-Fit _ bus m h f = f

call_updated-Fit : (x : DbusDataInfo × Hardware) → FitCall x → Fit (call_updated x)
call_updated-Fit (info, h) c =
    let n : HasNumbers info = c.fit_info in
    let f : Fit h = c.fit_rest in search (if-Fit, notify-Fit, with_message-HasNumbers)

pub voice_call_property-Fit :
    (bus : Bus) (path : String) (key : Option String) (h : Hardware)
    → Fit h
    → Fit (voice_call_property bus path key h)
unfolding voice_call_property
voice_call_property-Fit bus path none h f = f
voice_call_property-Fit bus path (some key) h f =
    search (if-Fit, call_updated-Fit, get_voice_call_properties-FitCall)

pub call_removed-Fit : (path : Option String) (h : Hardware) → Fit h → Fit (call_removed path h)
unfolding call_removed
call_removed-Fit none h f = f
call_removed-Fit (some path) h f = search (if-Fit, message-HasNumbers)

announce_call-Fit : (x : DbusDataInfo × Hardware) → FitCall x → Fit (announce_call x)
announce_call-Fit (info, h) c =
    let n : HasNumbers info = c.fit_info in
    let f : Fit h = c.fit_rest in search (if-Fit, notify-Fit, with_message-HasNumbers) depth 10

pub call_added-Fit :
    (bus : Bus) (path : Option String) (h : Hardware) → Fit h → Fit (call_added bus path h)
unfolding call_added
call_added-Fit bus none h f = f
call_added-Fit bus (some path) h f =
    search (announce_call-Fit, get_voice_call_properties-FitCall, add_active_call_path-Fit)
