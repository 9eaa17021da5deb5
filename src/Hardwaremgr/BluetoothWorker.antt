-- ===== src/Hardwaremgr/BluetoothWorker.antt =====
-- hardwaremgr/src/Thread/BluetoothWorker.cpp: the signals of BlueZ (`Bluez`) and of oFono (`Ofono`),
-- and what is made of a message. The thread runs only if BlueZ and oFono are there.
pub mod Bluez
pub mod Ofono
unfoldable pub use Bluez.*
unfoldable pub use Ofono.*
use raspberrypiservice.Prelude.{
  Bool, true, false, ◌&&◌, String, List, [], ◌∷◌, str_eq, if◌then◌else◌,
}
use raspberrypiservice.Hardwaremgr.Config.{
  dbus_object_manager_interface, dbus_properties_interface, hardwaremgr_agent_object_path,
  ofono_manager_interface, ofono_modem_interface, ofono_voicecall_manager_interface,
  ofono_voicecall_interface,
}
use raspberrypiservice.Hardwaremgr.Hardware.{Bus, Hardware}
use raspberrypiservice.Hardwaremgr.Message.{Kind, Message, is_signal}
use raspberrypiservice.Hardwaremgr.BluetoothAgent.{handle_message}

abbrev to_agent : Message → Bool
to_agent m = elim m.kind [
  | Kind.method_call ↦ str_eq m.path hardwaremgr_agent_object_path
  | _ ↦ false
]

-- The agent may be missing.
unfoldable pub dispatch_message : (agent : Bool) → Bus → Message → Hardware → Hardware
unfolding handle_modem_added handle_modem_removed handle_ofono_property_changed handle_call_added
    handle_call_removed handle_voice_call_property_changed handle_interfaces_added
    handle_interfaces_removed handle_properties_changed handle_message
dispatch_message agent bus m h =
    if is_signal m ofono_manager_interface "ModemAdded"
    then handle_modem_added bus m h
    else if is_signal m ofono_manager_interface "ModemRemoved"
    then handle_modem_removed m h
    else if is_signal m ofono_modem_interface "PropertyChanged"
    then handle_ofono_property_changed bus m h
    else if is_signal m ofono_voicecall_manager_interface "CallAdded"
    then handle_call_added bus m h
    else if is_signal m ofono_voicecall_manager_interface "CallRemoved"
    then handle_call_removed m h
    else if is_signal m ofono_voicecall_interface "PropertyChanged"
    then handle_voice_call_property_changed bus m h
    else if is_signal m dbus_object_manager_interface "InterfacesAdded"
    then handle_interfaces_added m h
    else if is_signal m dbus_object_manager_interface "InterfacesRemoved"
    then handle_interfaces_removed m h
    else if is_signal m dbus_properties_interface "PropertiesChanged"
    then handle_properties_changed bus m h
    else if to_agent m && agent
    then handle_message m h
    else h

-- The inner loop of `threadFunction`, over the messages that have come.
unfoldable pub dispatch_messages : (agent : Bool) → Bus → List Message → Hardware → Hardware
unfolding dispatch_message
dispatch_messages agent bus [] h = h
dispatch_messages agent bus (m ∷ ms) h =
    dispatch_messages agent bus ms (dispatch_message agent bus m h)
