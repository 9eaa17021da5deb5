-- ===== src/Hardwaremgr/MainWorker.antt =====
-- hardwaremgr/src/Thread/MainWorker.cpp: the events, given to BlueZ, oFono and the agent. The first
-- component of a result is false where the thread ends by an exception that nothing catches, or by
-- the call of an agent that is missing.
use raspberrypiservice.Prelude.{
  Bool, true, false, String, List, [], ◌∷◌, Option, none, some, if◌then◌else◌,
}
use raspberrypiservice.Common.Event.{Payload, Event}
use raspberrypiservice.Hardwaremgr.EventTypeId.{EventTypeId}
use raspberrypiservice.Hardwaremgr.Hardware.{Bus, Hardware}
use raspberrypiservice.Hardwaremgr.BluezDbus.Requests.{
  start_discovery, stop_discovery, pair_device, unpair_device, connect_device, disconnect_device,
}
use raspberrypiservice.Hardwaremgr.BluezDbus.Adapter.{
  initialize_adapter, power_on_adapter, power_off_adapter,
}
use raspberrypiservice.Hardwaremgr.OfonoDbus.Calls.{dial_call, answer_call, hangup_call}
use raspberrypiservice.Hardwaremgr.BluetoothAgent.{confirm_request}
use raspberrypiservice.Hardwaremgr.Message.{Message}
use raspberrypiservice.Hardwaremgr.BluetoothWorker.{dispatch_message}

-- The pointers that are not null.
pub record Parts : Type 0 where
  pub bluez_dbus : Bool
  pub ofono_dbus : Bool
  pub agent : Bool

-- A part that is missing is only logged.
abbrev pub if_there : Bool → (Hardware → Hardware) → Hardware → Bool × Hardware
if_there true f h = (true, f h)
if_there false f h = (true, h)

unfoldable pub process_initialize_bluetooth_event : Parts → Bus → Hardware → Bool × Hardware
process_initialize_bluetooth_event parts bus h =
    if parts.bluez_dbus then initialize_adapter bus h else (true, h)

unfoldable pub process_start_scan_btdevice_event : Parts → Bus → Hardware → Bool × Hardware
process_start_scan_btdevice_event parts bus = if_there parts.bluez_dbus (start_discovery bus)

unfoldable pub process_stop_scan_btdevice_event : Parts → Bus → Hardware → Bool × Hardware
process_stop_scan_btdevice_event parts bus = if_there parts.bluez_dbus (stop_discovery bus)

unfoldable pub process_bluetooth_power_on_event : Parts → Bus → Hardware → Bool × Hardware
process_bluetooth_power_on_event parts bus = if_there parts.bluez_dbus (power_on_adapter bus)

unfoldable pub process_bluetooth_power_off_event : Parts → Bus → Hardware → Bool × Hardware
process_bluetooth_power_off_event parts bus = if_there parts.bluez_dbus (power_off_adapter bus)

unfoldable pub process_hangup_call_event : Parts → Bus → Hardware → Bool × Hardware
process_hangup_call_event parts bus = if_there parts.ofono_dbus (hangup_call bus)

unfoldable pub process_answer_call_event : Parts → Bus → Hardware → Bool × Hardware
process_answer_call_event parts bus = if_there parts.ofono_dbus (answer_call bus)

-- A payload of another class is only logged.
abbrev pub with_address : Option Payload → (String → Hardware → Hardware) → Hardware → Hardware
with_address (some (Payload.bluetooth_device_address address)) f h = f address h
with_address _ f h = h

unfoldable pub process_pair_btdevice_event :
    Parts → Bus → Option Payload → Hardware → Bool × Hardware
process_pair_btdevice_event parts bus payload =
    if_there parts.bluez_dbus (with_address payload (λ address. pair_device address bus))

unfoldable pub process_unpair_btdevice_event :
    Parts → Bus → Option Payload → Hardware → Bool × Hardware
process_unpair_btdevice_event parts bus payload =
    if_there parts.bluez_dbus (with_address payload (λ address. unpair_device address bus))

unfoldable pub process_connect_btdevice_event :
    Parts → Bus → Option Payload → Hardware → Bool × Hardware
process_connect_btdevice_event parts bus payload =
    if_there parts.bluez_dbus (with_address payload (λ address. connect_device address bus))

unfoldable pub process_disconnect_btdevice_event :
    Parts → Bus → Option Payload → Hardware → Bool × Hardware
process_disconnect_btdevice_event parts bus payload =
    if_there parts.bluez_dbus (with_address payload (λ address. disconnect_device address bus))

abbrev pub confirm : Parts → Bool → Option Payload → Hardware → Bool × Hardware
confirm parts confirmed (some (Payload.bluetooth_device_address address)) h =
    if parts.bluez_dbus
    then if parts.agent then (true, confirm_request address confirmed h) else (false, h)
    else (true, h)
confirm parts confirmed _ h = (true, h)

unfoldable pub process_reject_request_confirmation_event :
    Parts → Option Payload → Hardware → Bool × Hardware
process_reject_request_confirmation_event parts = confirm parts false

unfoldable pub process_accept_request_confirmation_event :
    Parts → Option Payload → Hardware → Bool × Hardware
process_accept_request_confirmation_event parts = confirm parts true

abbrev pub with_number : Option Payload → (String → Hardware → Hardware) → Hardware → Hardware
with_number (some (Payload.call name number state)) f h = f number h
with_number _ f h = h

unfoldable pub process_dial_call_event : Parts → Bus → Option Payload → Hardware → Bool × Hardware
process_dial_call_event parts bus payload =
    if_there parts.ofono_dbus (with_number payload (λ number. dial_call number bus))

-- The `switch` of `processEvent`; the last clause is `default`.
unfoldable pub handle : EventTypeId → Parts → Bus → Option Payload → Hardware → Bool × Hardware
unfolding process_initialize_bluetooth_event process_start_scan_btdevice_event
    process_stop_scan_btdevice_event process_bluetooth_power_on_event
    process_bluetooth_power_off_event process_hangup_call_event process_answer_call_event
    process_pair_btdevice_event process_unpair_btdevice_event process_connect_btdevice_event
    process_disconnect_btdevice_event process_reject_request_confirmation_event
    process_accept_request_confirmation_event process_dial_call_event
handle EventTypeId.initialize_bluetooth parts bus payload h =
    process_initialize_bluetooth_event parts bus h
handle EventTypeId.start_scan_btdevice parts bus payload h =
    process_start_scan_btdevice_event parts bus h
handle EventTypeId.stop_scan_btdevice parts bus payload h =
    process_stop_scan_btdevice_event parts bus h
handle EventTypeId.bluetooth_power_on parts bus payload h =
    process_bluetooth_power_on_event parts bus h
handle EventTypeId.bluetooth_power_off parts bus payload h =
    process_bluetooth_power_off_event parts bus h
handle EventTypeId.pair_btdevice parts bus payload h =
    process_pair_btdevice_event parts bus payload h
handle EventTypeId.unpair_btdevice parts bus payload h =
    process_unpair_btdevice_event parts bus payload h
handle EventTypeId.connect_btdevice parts bus payload h =
    process_connect_btdevice_event parts bus payload h
handle EventTypeId.disconnect_btdevice parts bus payload h =
    process_disconnect_btdevice_event parts bus payload h
handle EventTypeId.reject_request_confirmation parts bus payload h =
    process_reject_request_confirmation_event parts payload h
handle EventTypeId.accept_request_confirmation parts bus payload h =
    process_accept_request_confirmation_event parts payload h
handle EventTypeId.dial_call parts bus payload h = process_dial_call_event parts bus payload h
handle EventTypeId.hangup_call parts bus payload h = process_hangup_call_event parts bus h
handle EventTypeId.answer_call parts bus payload h = process_answer_call_event parts bus h
handle _ parts bus payload h = (true, h)

unfoldable pub process_event : Parts → Bus → Option (Event EventTypeId) → Hardware → Bool × Hardware
unfolding handle
process_event parts bus none h = (true, h)
process_event parts bus (some e) h = handle e.event_type_id parts bus e.payload h

-- What the threads of BlueZ do, in the order in which they take the mutex: the main thread handles an
-- event, or the Bluetooth thread a message.
pub data Happening : Type 0 where
  event : Event EventTypeId → Happening
  message : Message → Happening

-- An exception ends the process.
unfoldable pub run : Parts → Bus → List Happening → Hardware → Bool × Hardware
unfolding process_event dispatch_message
run parts bus [] h = (true, h)
run parts bus (event e ∷ hs) h =
    let (ok, h') = process_event parts bus (some e) h in
    let rest = run parts bus hs h' in if ok then rest else (false, h')
run parts bus (message m ∷ hs) h = run parts bus hs (dispatch_message parts.agent bus m h)
