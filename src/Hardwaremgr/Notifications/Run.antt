-- ===== src/Hardwaremgr/Notifications/Run.antt =====
-- Every notification that the hardware manager's threads send.
use raspberrypiservice.Prelude.{
  Bool, true, false, String, List, [], ◌∷◌, Option, some, if◌then◌else◌,
}
use raspberrypiservice.Common.Event.{Payload}
use raspberrypiservice.Hardwaremgr.EventTypeId.{EventTypeId}
use raspberrypiservice.Hardwaremgr.Hardware.{Bus, Hardware}
use raspberrypiservice.Hardwaremgr.Message.{Message, text_argument}
use raspberrypiservice.Hardwaremgr.BluetoothWorker.{dispatch_message}
use raspberrypiservice.Hardwaremgr.BluetoothWorker.Ofono.{
  handle_ofono_property_changed, handle_voice_call_property_changed, handle_call_removed,
  handle_call_added,
}
use raspberrypiservice.Hardwaremgr.MainWorker.{
  Parts, if_there, with_address, with_number, confirm, process_initialize_bluetooth_event,
  process_start_scan_btdevice_event, process_stop_scan_btdevice_event,
  process_bluetooth_power_on_event, process_bluetooth_power_off_event, process_hangup_call_event,
  process_answer_call_event, process_pair_btdevice_event, process_unpair_btdevice_event,
  process_connect_btdevice_event, process_disconnect_btdevice_event,
  process_reject_request_confirmation_event, process_accept_request_confirmation_event,
  process_dial_call_event, handle, process_event, Happening, event, message, run,
}
use raspberrypiservice.Hardwaremgr.Notifications.Fit.{Fit, if-Fit}
use raspberrypiservice.Hardwaremgr.Notifications.Bluez.{
  start_discovery-Fit, stop_discovery-Fit, pair_device-Fit, unpair_device-Fit, connect_device-Fit,
  disconnect_device-Fit, power_on_adapter-Fit, power_off_adapter-Fit,
}
use raspberrypiservice.Hardwaremgr.Notifications.Adapter.{initialize_adapter-Fit}
use raspberrypiservice.Hardwaremgr.Notifications.Calls.{
  dial_call-Fit, hangup_call-Fit, answer_call-Fit,
}
use raspberrypiservice.Hardwaremgr.Notifications.Signals.{
  modem_added-Fit, modem_removed-Fit, property_changed-Fit, voice_call_property-Fit,
  call_removed-Fit, call_added-Fit,
}
use raspberrypiservice.Hardwaremgr.Notifications.Devices.{
  handle_interfaces_added-Fit, handle_interfaces_removed-Fit, handle_properties_changed-Fit,
}
use raspberrypiservice.Hardwaremgr.Notifications.Agent.{handle_message-Fit, confirm_request-Fit}

dispatch_message-Fit :
    (agent : Bool) (bus : Bus) (m : Message) (h : Hardware)
    → Fit h
    → Fit (dispatch_message agent bus m h)
unfolding dispatch_message handle_ofono_property_changed handle_voice_call_property_changed
    handle_call_removed handle_call_added
dispatch_message-Fit agent bus m h f =
    let modem_added = modem_added-Fit m.args bus m h f in
    let modem_removed = modem_removed-Fit m.args m h f in
    let property = property_changed-Fit bus m m.args h f in
    let added = call_added-Fit bus (text_argument m.args) h f in
    let removed = call_removed-Fit (text_argument m.args) h f in
    let voice = voice_call_property-Fit bus m.path (text_argument m.args) h f in
    let found = handle_interfaces_added-Fit m.args m h f in
    let lost = handle_interfaces_removed-Fit m.args m h f in
    let changed = handle_properties_changed-Fit m.args bus m h f in
    let asked = handle_message-Fit m h f in
    if-Fit _ _ _ modem_added (
      if-Fit _ _ _ modem_removed (
        if-Fit _ _ _ property (
          if-Fit _ _ _ added (
            if-Fit _ _ _ removed (
              if-Fit _ _ _ voice (
                if-Fit _ _ _ found
                  (if-Fit _ _ _ lost (if-Fit _ _ _ changed (if-Fit _ _ _ asked f)))))))))

if_there-Fit :
    (there : Bool) (g : Hardware → Hardware) (h : Hardware)
    → Fit (g h)
    → Fit h
    → Fit (if_there there g h).1
if_there-Fit true g h k f = k
if_there-Fit false g h k f = f

with_address-Fit :
    (payload : Option Payload) (g : String → Hardware → Hardware) (h : Hardware)
    → ((address : String) → Fit (g address h))
    → Fit h
    → Fit (with_address payload g h)
with_address-Fit (some (Payload.bluetooth_device_address address)) g h k f = k address
with_address-Fit _ g h k f = f

with_number-Fit :
    (payload : Option Payload) (g : String → Hardware → Hardware) (h : Hardware)
    → ((number : String) → Fit (g number h))
    → Fit h
    → Fit (with_number payload g h)
with_number-Fit (some (Payload.call name number state)) g h k f = k number
with_number-Fit _ g h k f = f

if-Fit_with_flag :
    (b : Bool) (x y : Bool × Hardware) → Fit x.1 → Fit y.1 → Fit (if b then x else y).1
if-Fit_with_flag true x y f g = f
if-Fit_with_flag false x y f g = g

confirm-Fit :
    (parts : Parts) (confirmed : Bool) (payload : Option Payload) (h : Hardware)
    → Fit h
    → Fit (confirm parts confirmed payload h).1
confirm-Fit parts confirmed (some (Payload.bluetooth_device_address address)) h f =
    search (if-Fit_with_flag, confirm_request-Fit)
confirm-Fit parts confirmed _ h f = f

handle-Fit :
    (id : EventTypeId) (parts : Parts) (bus : Bus) (payload : Option Payload) (h : Hardware)
    → Fit h
    → Fit (handle id parts bus payload h).1
unfolding handle process_initialize_bluetooth_event process_start_scan_btdevice_event
    process_stop_scan_btdevice_event process_bluetooth_power_on_event
    process_bluetooth_power_off_event process_hangup_call_event process_answer_call_event
    process_pair_btdevice_event process_unpair_btdevice_event process_connect_btdevice_event
    process_disconnect_btdevice_event process_reject_request_confirmation_event
    process_accept_request_confirmation_event process_dial_call_event
handle-Fit EventTypeId.initialize_bluetooth parts bus payload h f =
    search (if-Fit_with_flag, initialize_adapter-Fit)
handle-Fit EventTypeId.start_scan_btdevice parts bus payload h f =
    search (if_there-Fit, start_discovery-Fit)
handle-Fit EventTypeId.stop_scan_btdevice parts bus payload h f =
    search (if_there-Fit, stop_discovery-Fit)
handle-Fit EventTypeId.bluetooth_power_on parts bus payload h f =
    search (if_there-Fit, power_on_adapter-Fit)
handle-Fit EventTypeId.bluetooth_power_off parts bus payload h f =
    search (if_there-Fit, power_off_adapter-Fit)
handle-Fit EventTypeId.pair_btdevice parts bus payload h f =
    search (if_there-Fit, with_address-Fit, pair_device-Fit)
handle-Fit EventTypeId.unpair_btdevice parts bus payload h f =
    search (if_there-Fit, with_address-Fit, unpair_device-Fit)
handle-Fit EventTypeId.connect_btdevice parts bus payload h f =
    search (if_there-Fit, with_address-Fit, connect_device-Fit)
handle-Fit EventTypeId.disconnect_btdevice parts bus payload h f =
    search (if_there-Fit, with_address-Fit, disconnect_device-Fit)
handle-Fit EventTypeId.reject_request_confirmation parts bus payload h f =
    confirm-Fit parts false payload h f
handle-Fit EventTypeId.accept_request_confirmation parts bus payload h f =
    confirm-Fit parts true payload h f
handle-Fit EventTypeId.dial_call parts bus payload h f =
    search (if_there-Fit, with_number-Fit, dial_call-Fit)
handle-Fit EventTypeId.hangup_call parts bus payload h f = search (if_there-Fit, hangup_call-Fit)
handle-Fit EventTypeId.answer_call parts bus payload h f = search (if_there-Fit, answer_call-Fit)
handle-Fit _ parts bus payload h f = f

-- Whatever happens, all that has been sent stays fit.
pub run-Fit :
    (parts : Parts) (bus : Bus) (hs : List Happening) (h : Hardware)
    → Fit h
    → Fit (run parts bus hs h).1
unfolding run process_event
run-Fit parts bus [] h f = f
run-Fit parts bus (event e ∷ hs) h f =
    let (ok, h') = process_event parts bus (some e) h in
    let kept = handle-Fit e.event_type_id parts bus e.payload h f in
    if-Fit_with_flag ok (run parts bus hs h') (false, h') (run-Fit parts bus hs h' kept) kept
run-Fit parts bus (message m ∷ hs) h f =
    run-Fit parts bus hs (dispatch_message parts.agent bus m h)
      (dispatch_message-Fit parts.agent bus m h f)
