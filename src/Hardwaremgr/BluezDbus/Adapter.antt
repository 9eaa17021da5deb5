-- ===== src/Hardwaremgr/BluezDbus/Adapter.antt =====
-- `initializeAdapter`: the objects that BlueZ manages, and the signals to receive. An exception
-- leaves the state as it is where it is thrown; the first component is false then.
use Prim.Native.String.{◌++◌ as str_append}
use raspberrypiservice.Prelude.{
  Bool, true, false, not, ◌||◌, String, List, [], ◌∷◌, str_eq, if◌then◌else◌,
}
use raspberrypiservice.Common.Define.{DbusCommand}
use raspberrypiservice.Common.Text.{is_empty}
use raspberrypiservice.Common.DbusData.{DbusDataType, DbusDataInfo, init_info, set_info}
use raspberrypiservice.Hardwaremgr.Config.{
  bluez_service_name, bluez_adapter_interface, bluez_device_interface, bluez_agent_interface,
  dbus_object_manager_interface, dbus_properties_interface, hardwaremgr_agent_object_path,
  ofono_service_name, ofono_manager_interface, ofono_modem_interface,
  ofono_voicecall_manager_interface, ofono_voicecall_interface,
}
use raspberrypiservice.Hardwaremgr.Hardware.{
  Interfaces, CallArg, Call, call, Reply, Answer, Bus, Hardware, notify, ask,
}
use raspberrypiservice.Hardwaremgr.BluezDbus.Parse.{
  parse_adapter_properties, parse_device_properties,
}
use raspberrypiservice.Hardwaremgr.BluezDbus.Requests.{set_power, set_discoverable}

abbrev pub on_off : Bool → String
on_off true = "ON"
on_off false = "OFF"

abbrev pub power_command : Bool → DbusCommand
power_command true = DbusCommand.bluetooth_power_on_noti
power_command false = DbusCommand.bluetooth_power_off_noti

abbrev pub scan_command : Bool → DbusCommand
scan_command true = DbusCommand.start_scan_btdevice_noti
scan_command false = DbusCommand.stop_scan_btdevice_noti

-- A property that is set is announced by itself.
abbrev pub announce :
    (Bool → DbusCommand) → DbusDataType → (prefix value : String) → Hardware → Hardware
announce cmd key prefix value h =
    let is_on = str_eq value "true" in
    if is_empty value
    then h
    else notify (cmd is_on) true
        (set_info DbusDataType.message (str_append prefix (on_off is_on))
          (set_info key value init_info))
        h

-- An adapter that has been switched on is to be discoverable.
abbrev pub ensure_discoverable : (powered discoverable : String) → Bus → Hardware → Hardware
ensure_discoverable powered discoverable bus h =
    if is_empty discoverable || not (str_eq powered "true") || str_eq discoverable "true"
    then h
    else set_discoverable true bus h

abbrev pub found_adapter : Bus → String → DbusDataInfo → Hardware → Hardware
found_adapter bus path props h =
    ensure_discoverable (props DbusDataType.bt_adapter_powered)
      (props DbusDataType.bt_adapter_discoverable) bus
      (announce scan_command DbusDataType.bt_adapter_discovering
        "Initial adapter discovery state is " (props DbusDataType.bt_adapter_discovering)
        (announce power_command DbusDataType.bt_adapter_powered "Initial adapter power state is "
          (props DbusDataType.bt_adapter_powered) (record h { adapter_path = path })))

abbrev pub found_device : DbusDataInfo → Hardware → Hardware
found_device props h =
    notify DbusCommand.scanning_btdevice_found_noti true
      (set_info DbusDataType.message "Found existing Bluetooth device in managed objects." props) h

-- The loop over the interfaces of an object; the flag is `adapterFound`.
unfoldable pub managed_object : Bus → String → Interfaces → Bool × Hardware → Bool × Hardware
unfolding parse_adapter_properties parse_device_properties
managed_object bus path [] (found, h) = (found, h)
managed_object bus path ((interface, ps) ∷ rest) (found, h) = managed_object bus path rest (
    if str_eq interface bluez_adapter_interface
    then (true, found_adapter bus path (parse_adapter_properties ps) h)
    else if str_eq interface bluez_device_interface
    then (found, found_device (parse_device_properties ps) h)
    else (found, h))

-- The loop over the objects.
unfoldable pub parse_managed_objects :
    Bus → List (String × Interfaces) → Bool × Hardware → Bool × Hardware
unfolding managed_object
parse_managed_objects bus [] r = r
parse_managed_objects bus ((path, interfaces) ∷ objects) r =
    parse_managed_objects bus objects (managed_object bus path interfaces r)

abbrev signal_rule : (interface member sender : String) → String
signal_rule interface member sender = str_append "type='signal',interface='" (
    str_append interface (
      str_append "',member='"
        (str_append member (str_append "',sender='" (str_append sender "'")))))

abbrev agent_rule : String
agent_rule = str_append "type='method_call',interface='" (
    str_append bluez_agent_interface
      (str_append "',path='" (str_append hardwaremgr_agent_object_path "'")))

-- The rules, in the order in which they are added.
abbrev pub match_rules : List String
match_rules =
    signal_rule dbus_object_manager_interface "InterfacesAdded" bluez_service_name
    ∷ signal_rule dbus_object_manager_interface "InterfacesRemoved" bluez_service_name
    ∷ signal_rule dbus_properties_interface "PropertiesChanged" bluez_service_name
    ∷ agent_rule
    ∷ signal_rule ofono_manager_interface "ModemAdded" ofono_service_name
    ∷ signal_rule ofono_manager_interface "ModemRemoved" ofono_service_name
    ∷ signal_rule ofono_modem_interface "PropertyChanged" ofono_service_name
    ∷ signal_rule ofono_voicecall_manager_interface "CallAdded" ofono_service_name
    ∷ signal_rule ofono_voicecall_manager_interface "CallRemoved" ofono_service_name
    ∷ signal_rule ofono_voicecall_interface "PropertyChanged" ofono_service_name
    ∷ signal_rule dbus_properties_interface "PropertiesChanged" ofono_service_name
    ∷ []

abbrev add_match_call : String → Call
add_match_call rule =
    call "org.freedesktop.DBus" "/org/freedesktop/DBus" "org.freedesktop.DBus" "AddMatch"
      (CallArg.text_arg rule ∷ [])

-- An error is an exception of `addMatchRule`.
abbrev pub add_match_rule : Bus → String → Hardware → Bool × Hardware
add_match_rule bus rule h =
    let (a, h') = ask bus (add_match_call rule) h in
    (elim a [ Answer.failed e ↦ false | _ ↦ true ], h')

unfoldable pub add_match_rules : Bus → List String → Hardware → Bool × Hardware
add_match_rules bus [] h = (true, h)
add_match_rules bus (rule ∷ rules) h =
    let (ok, h') = add_match_rule bus rule h in
    let rest = add_match_rules bus rules h' in if ok then rest else (false, h')

abbrev pub initialized : Bool × Hardware → Bool × Hardware
initialized (ok, h) = (ok, record h { is_initialized = ok })

-- What follows `parseManagedObjects`.
abbrev pub add_rules : Bus → Bool × Hardware → Bool × Hardware
add_rules bus (false, h) = (false, h)
add_rules bus (true, h) =
    if h.is_initialized then (true, h) else initialized (add_match_rules bus match_rules h)

abbrev pub managed_objects_call : Call
managed_objects_call =
    call bluez_service_name "/" dbus_object_manager_interface "GetManagedObjects" []

abbrev pub managed_objects : Bus → Answer × Hardware → Bool × Hardware
managed_objects bus (Answer.replied (Reply.objects objects), h) =
    add_rules bus (parse_managed_objects bus objects (false, h))
managed_objects bus (_, h) = (false, h)

unfoldable pub initialize_adapter : Bus → Hardware → Bool × Hardware
unfolding parse_managed_objects add_match_rules
initialize_adapter bus h = managed_objects bus (ask bus managed_objects_call h)

unfoldable pub power_on_adapter : Bus → Hardware → Hardware
unfolding set_power
power_on_adapter bus h = set_power true bus h

unfoldable pub power_off_adapter : Bus → Hardware → Hardware
unfolding set_power
power_off_adapter bus h = set_power false bus h
