-- ===== src/Hardwaremgr/Notifications/Devices.antt =====
-- What is announced when a signal of BlueZ, or a request to the agent, comes.
use raspberrypiservice.Prelude.{
  ◌≡◌, refl, Bool, true, String, List, [], ◌∷◌, Option, none, some, str_eq,
}
use raspberrypiservice.Common.Define.{DbusCommand}
use raspberrypiservice.Common.Text.{is_empty}
use raspberrypiservice.Common.DbusData.{DbusDataType, DbusDataInfo, set_info}
use raspberrypiservice.Hardwaremgr.Config.{bluez_service_name, bluez_device_interface}
use raspberrypiservice.Hardwaremgr.Hardware.{
  Properties, Interfaces, Reply, Answer, Bus, Hardware, ask,
}
use raspberrypiservice.Hardwaremgr.Message.{Argument, Message}
use raspberrypiservice.Hardwaremgr.BluezDbus.Parse.{
  get_all_call, parse_reply, parse_adapter_properties, parse_device_properties,
  get_all_adapter_properties, get_all_device_properties,
}
use raspberrypiservice.Hardwaremgr.BluezDbus.Adapter.{power_command, scan_command}
use raspberrypiservice.Hardwaremgr.BluetoothWorker.Bluez.{
  device_found, interfaces_added, handle_interfaces_added, removed_at, device_removed,
  interfaces_removed, handle_interfaces_removed, changed, make_discoverable, powered_on,
  adapter_changed, trust, device_changed, properties_changed, sent_by_ofono,
  handle_properties_changed,
}
use raspberrypiservice.Hardwaremgr.Notifications.Parsed.{
  HasNumbers, init_info-HasNumbers, set_info-HasNumbers, parse_adapter_properties-HasNumbers,
  parse_device_properties-HasNumbers,
}
use raspberrypiservice.Hardwaremgr.Notifications.Fit.{
  is_announced, Fit, if-Fit, notify-Fit, with_message-HasNumbers,
}
use raspberrypiservice.Hardwaremgr.Notifications.Bluez.{
  ask-Fit, trust_device-Fit, set_discoverable-Fit,
}
use raspberrypiservice.Hardwaremgr.Notifications.Adapter.{
  power_command_announced, scan_command_announced,
}
use raspberrypiservice.Hardwaremgr.Notifications.Signals.{ofono_properties_changed-Fit}

device_found-Fit :
    (info : DbusDataInfo) (h : Hardware) → HasNumbers info → Fit h → Fit (device_found info h)
device_found-Fit info h n f = search (if-Fit, with_message-HasNumbers)

interfaces_added-Fit : (added : Interfaces) (h : Hardware) → Fit h → Fit (interfaces_added added h)
unfolding interfaces_added
interfaces_added-Fit [] h f = f
interfaces_added-Fit ((interface, ps) ∷ rest) h f =
    interfaces_added-Fit rest _
      (search (if-Fit, device_found-Fit, parse_device_properties-HasNumbers))

pub handle_interfaces_added-Fit :
    (args : List Argument) (m : Message) (h : Hardware)
    → Fit h
    → Fit (handle_interfaces_added (record m { args = args }) h)
unfolding handle_interfaces_added
handle_interfaces_added-Fit (Argument.object_path path ∷ Argument.interfaces added ∷ rest) m h f =
    interfaces_added-Fit added h f
handle_interfaces_added-Fit _ m h f = f

removed_at-Fit : (s : Option String) (h : Hardware) → Fit h → Fit (removed_at s h)
removed_at-Fit none h f = f
removed_at-Fit (some s) h f =
    search (with_message-HasNumbers, set_info-HasNumbers, init_info-HasNumbers)

interfaces_removed-Fit :
    (path : String) (removed : List String) (h : Hardware)
    → Fit h
    → Fit (interfaces_removed path removed h)
unfolding interfaces_removed device_removed
interfaces_removed-Fit path [] h f = f
interfaces_removed-Fit path (interface ∷ rest) h f =
    interfaces_removed-Fit path rest _ (search (if-Fit, removed_at-Fit))

pub handle_interfaces_removed-Fit :
    (args : List Argument) (m : Message) (h : Hardware)
    → Fit h
    → Fit (handle_interfaces_removed (record m { args = args }) h)
unfolding handle_interfaces_removed
handle_interfaces_removed-Fit (Argument.object_path path ∷ Argument.texts removed ∷ rest) m h f =
    interfaces_removed-Fit path removed h f
handle_interfaces_removed-Fit _ m h f = f

changed-Fit :
    (cmd : Bool → DbusCommand) (key : DbusDataType) (prefix : String) (info : DbusDataInfo)
    (h : Hardware)
    → ((on : Bool) → is_announced (cmd on) ≡ true)
    → HasNumbers info
    → Fit h
    → Fit (changed cmd key prefix info h)
changed-Fit cmd key prefix info h a n f = search (if-Fit, notify-Fit, with_message-HasNumbers, a)

make_discoverable-Fit :
    (bus : Bus) (x : DbusDataInfo × Hardware) → Fit x.1 → Fit (make_discoverable bus x)
make_discoverable-Fit bus (info, h) f = search (if-Fit, set_discoverable-Fit)

get_all_adapter_properties-Fit :
    (bus : Bus) (path : String) (h : Hardware)
    → Fit h
    → Fit (get_all_adapter_properties bus path h).1
unfolding get_all_adapter_properties
get_all_adapter_properties-Fit bus path h f = search ask-Fit

powered_on-Fit :
    (bus : Bus) (path : String) (info : DbusDataInfo) (h : Hardware)
    → Fit h
    → Fit (powered_on bus path info h)
powered_on-Fit bus path info h f =
    search (if-Fit, make_discoverable-Fit, get_all_adapter_properties-Fit)

adapter_changed-Fit :
    (bus : Bus) (path : String) (info : DbusDataInfo) (h : Hardware)
    → HasNumbers info
    → Fit h
    → Fit (adapter_changed bus path info h)
unfolding adapter_changed
adapter_changed-Fit bus path info h n f =
    let powered =
      changed-Fit power_command DbusDataType.bt_adapter_powered "Adapter power state changed to "
        info h power_command_announced n f in
    let on = powered_on-Fit bus path info _ powered in
    changed-Fit scan_command DbusDataType.bt_adapter_discovering
      "Adapter discovery state changed to " info _ scan_command_announced n on

parse_reply-HasNumbers :
    (parse : Properties → DbusDataInfo) (a : Answer)
    → ((ps : Properties) → HasNumbers (parse ps))
    → HasNumbers (parse_reply parse a)
parse_reply-HasNumbers parse (Answer.replied (Reply.properties ps)) n = n ps
parse_reply-HasNumbers parse _ n = init_info-HasNumbers

trust-Fit : (bus : Bus) (info : DbusDataInfo) (h : Hardware) → Fit h → Fit (trust bus info h)
trust-Fit bus info h f = search (if-Fit, trust_device-Fit)

device_changed-Fit :
    (bus : Bus) (info : DbusDataInfo) (h : Hardware)
    → HasNumbers info
    → Fit h
    → Fit (device_changed bus (info, h))
unfolding device_changed
device_changed-Fit bus info h n f =
    let text : String = "Bluetooth device properties updated." in
    let told =
      notify-Fit DbusCommand.btdevice_property_change_noti true
        (set_info DbusDataType.message text info) (trust bus info h) refl
        (with_message-HasNumbers text info n) (trust-Fit bus info h f) in
    if-Fit (is_empty (info DbusDataType.bt_device_address)) h _ f told

properties_changed-Fit :
    (bus : Bus) (path interface : String) (args : List Argument) (h : Hardware)
    → Fit h
    → Fit (properties_changed bus path interface args h)
unfolding properties_changed get_all_device_properties
properties_changed-Fit bus path interface (Argument.dictionary ps ∷ rest) h f =
    let answer = ask bus (get_all_call bluez_service_name path bluez_device_interface) h in
    let info =
      parse_reply-HasNumbers parse_device_properties answer.0 parse_device_properties-HasNumbers in
    let adapter =
      adapter_changed-Fit bus path (parse_adapter_properties ps) h
        (parse_adapter_properties-HasNumbers ps) f in
    let device =
      device_changed-Fit bus (parse_reply parse_device_properties answer.0) answer.1 info
        (ask-Fit bus (get_all_call bluez_service_name path bluez_device_interface) h f) in
    if-Fit _ _ _ adapter (if-Fit (str_eq interface bluez_device_interface) _ h device f)
properties_changed-Fit bus path interface _ h f = f

pub handle_properties_changed-Fit :
    (args : List Argument) (bus : Bus) (m : Message) (h : Hardware)
    → Fit h
    → Fit (handle_properties_changed bus (record m { args = args }) h)
unfolding handle_properties_changed
handle_properties_changed-Fit (Argument.str interface ∷ rest) bus m h f =
    if-Fit (sent_by_ofono m.sender) _ _
      (ofono_properties_changed-Fit (Argument.str interface ∷ rest) bus m h f)
      (properties_changed-Fit bus m.path interface rest h f)
handle_properties_changed-Fit _ bus m h f = f
