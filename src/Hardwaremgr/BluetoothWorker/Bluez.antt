-- ===== src/Hardwaremgr/BluetoothWorker/Bluez.antt =====
-- The signals of BlueZ: devices that come and go, and properties that change.
use Prim.Native.String.{◌++◌ as str_append}
use raspberrypiservice.Prelude.{
  Bool, true, false, not, ◌&&◌, ◌||◌, String, List, [], ◌∷◌, Option, none, some, str_eq,
  if◌then◌else◌,
}
use raspberrypiservice.Common.Define.{DbusCommand}
use raspberrypiservice.Common.Text.{is_empty, replace, after_first}
use raspberrypiservice.Common.DbusData.{DbusDataType, DbusDataInfo, init_info, set_info}
use raspberrypiservice.Hardwaremgr.Config.{
  bluez_adapter_interface, bluez_device_interface, ofono_service_name,
}
use raspberrypiservice.Hardwaremgr.Hardware.{Interfaces, Bus, Hardware, notify}
use raspberrypiservice.Hardwaremgr.Message.{Argument, Message}
use raspberrypiservice.Hardwaremgr.BluezDbus.Parse.{
  parse_adapter_properties, parse_device_properties, get_all_adapter_properties,
  get_all_device_properties,
}
use raspberrypiservice.Hardwaremgr.BluezDbus.Requests.{trust_device, set_discoverable}
use raspberrypiservice.Hardwaremgr.BluezDbus.Adapter.{on_off, power_command, scan_command}
use raspberrypiservice.Hardwaremgr.BluetoothWorker.Ofono.{handle_ofono_properties_changed}

-- A device without an address is skipped.
abbrev pub device_found : DbusDataInfo → Hardware → Hardware
device_found info h =
    if is_empty (info DbusDataType.bt_device_address)
    then h
    else notify DbusCommand.scanning_btdevice_found_noti true
        (set_info DbusDataType.message "New Bluetooth device found." info) h

unfoldable pub interfaces_added : Interfaces → Hardware → Hardware
unfolding parse_device_properties
interfaces_added [] h = h
interfaces_added ((interface, ps) ∷ rest) h = interfaces_added rest (
    if str_eq interface bluez_device_interface
    then device_found (parse_device_properties ps) h
    else h)

unfoldable pub handle_interfaces_added : Message → Hardware → Hardware
unfolding interfaces_added
handle_interfaces_added m h = elim m.args [
  | Argument.object_path path ∷ Argument.interfaces added ∷ _ ↦ interfaces_added added h
  | _ ↦ h
]

-- From `xx_xx` to `xx:xx`.
unfoldable pub to_address : String → String
unfolding replace
to_address s = replace b'_' ":" s

abbrev pub removed_info : (address : String) → DbusDataInfo
removed_info address =
    set_info DbusDataType.message "Bluetooth device removed from scan."
      (set_info DbusDataType.bt_device_address address init_info)

-- The rest of the path, if there is one, is the address.
abbrev pub removed_at : Option String → Hardware → Hardware
removed_at none h = h
removed_at (some s) h =
    notify DbusCommand.scanning_btdevice_delete_noti true (removed_info (to_address s)) h

-- The address of a device stands in its path after the first "dev_".
unfoldable pub device_removed : (path : String) → Hardware → Hardware
unfolding after_first
device_removed path h = removed_at (after_first "dev_" path) h

unfoldable pub interfaces_removed : (path : String) → List String → Hardware → Hardware
unfolding device_removed
interfaces_removed path [] h = h
interfaces_removed path (interface ∷ rest) h =
    interfaces_removed path rest
      (if str_eq interface bluez_device_interface then device_removed path h else h)

unfoldable pub handle_interfaces_removed : Message → Hardware → Hardware
unfolding interfaces_removed
handle_interfaces_removed m h = elim m.args [
  | Argument.object_path path ∷ Argument.texts removed ∷ _ ↦ interfaces_removed path removed h
  | _ ↦ h
]

-- A change that is announced with all the properties that have changed.
abbrev pub changed :
    (Bool → DbusCommand) → DbusDataType → (prefix : String) → DbusDataInfo → Hardware → Hardware
changed cmd key prefix info h =
    let is_on = str_eq (info key) "true" in
    if is_empty (info key)
    then h
    else notify (cmd is_on) true
        (set_info DbusDataType.message (str_append prefix (on_off is_on)) info) h

abbrev pub make_discoverable : Bus → DbusDataInfo × Hardware → Hardware
make_discoverable bus (info, h) =
    let discoverable = info DbusDataType.bt_adapter_discoverable in
    if is_empty discoverable || str_eq discoverable "true" then h else set_discoverable true bus h

abbrev pub powered_on : Bus → (path : String) → DbusDataInfo → Hardware → Hardware
powered_on bus path info h =
    if str_eq (info DbusDataType.bt_adapter_powered) "true"
    then make_discoverable bus (get_all_adapter_properties bus path h)
    else h

unfoldable pub adapter_changed : Bus → (path : String) → DbusDataInfo → Hardware → Hardware
unfolding get_all_adapter_properties
adapter_changed bus path info h =
    changed scan_command DbusDataType.bt_adapter_discovering "Adapter discovery state changed to "
      info
      (powered_on bus path info (
        changed power_command DbusDataType.bt_adapter_powered "Adapter power state changed to " info
          h))

abbrev pub trust : Bus → DbusDataInfo → Hardware → Hardware
trust bus info h =
    if str_eq (info DbusDataType.bt_device_paired) "true"
      && (str_eq (info DbusDataType.bt_device_connected) "true"
          && not (str_eq (info DbusDataType.bt_device_trusted) "true"))
    then trust_device (info DbusDataType.bt_device_address) bus h
    else h

-- Any change of a device is announced with all its properties.
unfoldable pub device_changed : Bus → DbusDataInfo × Hardware → Hardware
unfolding trust_device
device_changed bus (info, h) =
    if is_empty (info DbusDataType.bt_device_address)
    then h
    else notify DbusCommand.btdevice_property_change_noti true
        (set_info DbusDataType.message "Bluetooth device properties updated." info)
        (trust bus info h)

unfoldable pub properties_changed :
    Bus → (path interface : String) → List Argument → Hardware → Hardware
unfolding parse_adapter_properties get_all_device_properties
properties_changed bus path interface (Argument.dictionary ps ∷ args) h =
    if str_eq interface bluez_adapter_interface
      && (not (is_empty h.adapter_path) && str_eq path h.adapter_path)
    then adapter_changed bus path (parse_adapter_properties ps) h
    else if str_eq interface bluez_device_interface
    then device_changed bus (get_all_device_properties bus path h)
    else h
properties_changed bus path interface _ h = h

abbrev pub sent_by_ofono : Option String → Bool
sent_by_ofono none = false
sent_by_ofono (some s) = str_eq s ofono_service_name

unfoldable pub handle_properties_changed : Bus → Message → Hardware → Hardware
unfolding properties_changed adapter_changed device_changed handle_ofono_properties_changed
handle_properties_changed bus m h = elim m.args [
  | Argument.str interface ∷ args ↦
      if sent_by_ofono m.sender
      then handle_ofono_properties_changed bus m h
      else properties_changed bus m.path interface args h
  | _ ↦ h
]
