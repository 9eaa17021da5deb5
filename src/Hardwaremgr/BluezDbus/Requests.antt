-- ===== src/Hardwaremgr/BluezDbus/Requests.antt =====
-- The requests to BlueZ. A request that fails is reported to the core manager; that one has
-- succeeded shows in the signals that BlueZ sends later.
use Prim.Native.String.{◌++◌ as str_append}
use raspberrypiservice.Prelude.{Bool, true, false, String, List, [], ◌∷◌, str_eq, if◌then◌else◌}
use raspberrypiservice.Common.Define.{DbusCommand}
use raspberrypiservice.Common.Text.{is_empty, replace}
use raspberrypiservice.Common.DbusData.{DbusDataType, DbusDataInfo, init_info, set_info}
use raspberrypiservice.Hardwaremgr.Config.{
  bluez_service_name, bluez_object_path, bluez_adapter_interface, bluez_device_interface,
  bluez_agent_manager_interface, dbus_properties_interface, hardwaremgr_agent_object_path,
}
use raspberrypiservice.Hardwaremgr.Hardware.{
  CallArg, Call, call, Answer, Bus, Hardware, notify, ask,
}
use raspberrypiservice.Hardwaremgr.BluezDbus.Parse.{get_all_device_properties}

-- The notification of a call that failed; `text` is sent if the message could not be made, and
-- `prefix` before the error of the service.
abbrev pub report :
    DbusCommand → (text prefix : String) → DbusDataInfo → Answer × Hardware → Hardware
report cmd text prefix info (Answer.no_message, h) =
    notify cmd false (set_info DbusDataType.message text info) h
report cmd text prefix info (Answer.failed e, h) =
    notify cmd false (set_info DbusDataType.message (str_append prefix e) info) h
report cmd text prefix info (_, h) = h

abbrev pub adapter_call : String → List CallArg → Hardware → Call
adapter_call member args h =
    call bluez_service_name h.adapter_path bluez_adapter_interface member args

unfoldable pub start_discovery : Bus → Hardware → Hardware
start_discovery bus h =
    report DbusCommand.start_scan_btdevice_noti "Failed to create D-Bus message for StartDiscovery"
      "Error starting Bluetooth discovery: " init_info
      (ask bus (adapter_call "StartDiscovery" [] h) h)

unfoldable pub stop_discovery : Bus → Hardware → Hardware
stop_discovery bus h =
    report DbusCommand.stop_scan_btdevice_noti "Failed to create D-Bus message for StopDiscovery"
      "Error stopping Bluetooth discovery: " init_info
      (ask bus (adapter_call "StopDiscovery" [] h) h)

-- `Set` of a flag.
abbrev pub set_property : (path interface name : String) → Bool → Call
set_property path interface name on =
    let args = CallArg.text_arg interface ∷ CallArg.text_arg name ∷ CallArg.flag_arg on ∷ [] in
    call bluez_service_name path dbus_properties_interface "Set" args

abbrev pub power_noti : Bool → DbusCommand
power_noti true = DbusCommand.bluetooth_power_on_noti
power_noti false = DbusCommand.bluetooth_power_off_noti

-- A message that could not be made is not reported here.
abbrev pub report_power : DbusCommand → Answer × Hardware → Hardware
report_power cmd (Answer.failed e, h) =
    notify cmd false
      (set_info DbusDataType.message (str_append "Error setting adapter power: " e) init_info) h
report_power cmd (_, h) = h

unfoldable pub set_power : Bool → Bus → Hardware → Hardware
set_power on bus h =
    report_power (power_noti on)
      (ask bus (set_property h.adapter_path bluez_adapter_interface "Powered" on) h)

unfoldable pub device_address_to_object_path : String → String → String
unfolding replace
device_address_to_object_path adapter_path address =
    str_append adapter_path (str_append "/dev_" (replace b':' "_" address))

-- The data of a report about a device.
abbrev pub address_info : String → DbusDataInfo
address_info address = set_info DbusDataType.bt_device_address address init_info

abbrev pub device_call : String → String → Hardware → Call
device_call address member h =
    call bluez_service_name (device_address_to_object_path h.adapter_path address)
      bluez_device_interface member []

unfoldable pub pair_device : String → Bus → Hardware → Hardware
pair_device address bus h =
    report DbusCommand.pair_btdevice_noti "Failed to create D-Bus message for Pair"
      "Error pairing with device: " (address_info address)
      (ask bus (device_call address "Pair" h) h)

unfoldable pub connect_device : String → Bus → Hardware → Hardware
connect_device address bus h =
    report DbusCommand.connect_btdevice_noti "Failed to create D-Bus message for Connect"
      "Error connecting to device: " (address_info address)
      (ask bus (device_call address "Connect" h) h)

unfoldable pub disconnect_device : String → Bus → Hardware → Hardware
disconnect_device address bus h =
    report DbusCommand.disconnect_btdevice_noti "Failed to create D-Bus message for Disconnect"
      "Error disconnecting from device: " (address_info address)
      (ask bus (device_call address "Disconnect" h) h)

-- `Set` of `Trusted`; its answer is only logged.
abbrev pub set_trusted : String → Bool → Bus → Hardware → Hardware
set_trusted path on bus h = (ask bus (set_property path bluez_device_interface "Trusted" on) h).1

unfoldable pub trust_device : String → Bus → Hardware → Hardware
trust_device address bus h =
    set_trusted (device_address_to_object_path h.adapter_path address) true bus h

-- A trusted device is not to be trusted any more when it is removed.
abbrev pub untrust : String → Bus → DbusDataInfo × Hardware → Hardware
untrust path bus (info, h) =
    if is_empty (info DbusDataType.bt_device_address)
    then h
    else if str_eq (info DbusDataType.bt_device_trusted) "true"
    then set_trusted path false bus h
    else h

unfoldable pub unpair_device : String → Bus → Hardware → Hardware
unfolding get_all_device_properties
unpair_device address bus h =
    let path = device_address_to_object_path h.adapter_path address in
    let h' = untrust path bus (get_all_device_properties bus path h) in
    report DbusCommand.unpair_btdevice_noti "Failed to create D-Bus message for RemoveDevice"
      "Error unpairing device: " (address_info address)
      (ask bus (adapter_call "RemoveDevice" (CallArg.object_path_arg path ∷ []) h') h')

unfoldable pub set_discoverable : Bool → Bus → Hardware → Hardware
set_discoverable on bus h =
    (ask bus (set_property h.adapter_path bluez_adapter_interface "Discoverable" on) h).1

abbrev manager_call : String → List CallArg → Call
manager_call member args =
    call bluez_service_name bluez_object_path bluez_agent_manager_interface member args

-- These messages are sent without waiting for a reply, so `made` says whether each could be made.
abbrev send : Bool → Call → Hardware → Hardware
send made c h = if made then record h { calls = c ∷ h.calls } else h

unfoldable pub register_agent : (made made_default : Bool) → String → Hardware → Hardware
register_agent made made_default capability h =
    let agent = CallArg.object_path_arg hardwaremgr_agent_object_path in
    let register = manager_call "RegisterAgent" (agent ∷ CallArg.text_arg capability ∷ []) in
    if made
    then send made_default (manager_call "RequestDefaultAgent" (agent ∷ [])) (send true register h)
    else h

unfoldable pub unregister_agent : (made : Bool) → Hardware → Hardware
unregister_agent made h =
    send made
      (manager_call "UnregisterAgent" (CallArg.object_path_arg hardwaremgr_agent_object_path ∷ []))
      h
