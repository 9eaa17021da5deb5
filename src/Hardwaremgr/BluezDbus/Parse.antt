-- ===== src/Hardwaremgr/BluezDbus/Parse.antt =====
-- `parseAdapterProperties` and `parseDeviceProperties`, and the calls of `GetAll`.
use raspberrypiservice.Prelude.{
  ℕ, ◌%◌, ◌^◌, ◌-◌, ℤ, pos, negsuc, ltb, Bool, true, false, String, [], ◌∷◌, str_eq, if◌then◌else◌,
}
use raspberrypiservice.Common.Text.{is_empty}
use raspberrypiservice.Common.Stdlib.{to_string}
use raspberrypiservice.Common.DbusData.{DbusDataType, DbusDataInfo, init_info, set_info}
use raspberrypiservice.Hardwaremgr.Config.{
  bluez_service_name, dbus_properties_interface, bluez_device_interface, bluez_adapter_interface,
}
use raspberrypiservice.Hardwaremgr.Hardware.{
  Value, Properties, CallArg, Call, call, Reply, Answer, Bus, Hardware, ask,
}

abbrev pub flag_text : Bool → String
flag_text true = "true"
flag_text false = "false"

-- A property is stored if its variant has the type that the key asks for.
abbrev pub set_flag : DbusDataType → Value → DbusDataInfo → DbusDataInfo
set_flag k (Value.flag b) info = set_info k (flag_text b) info
set_flag k _ info = info

abbrev pub set_text : DbusDataType → Value → DbusDataInfo → DbusDataInfo
set_text k (Value.text s) info = set_info k s info
set_text k _ info = info

-- The value of an `int16_t`.
unfoldable pub int16_value : ℕ → ℤ
int16_value bits =
    let n = bits % 2 ^ 16 in if ltb n (2 ^ 15) then pos n else negsuc (2 ^ 16 - 1 - n)

abbrev pub set_rssi : Value → DbusDataInfo → DbusDataInfo
set_rssi (Value.int16 n) info =
    set_info DbusDataType.bt_device_rssi (to_string (int16_value n)) info
set_rssi _ info = info

-- The alias stands in for a name that is not set.
abbrev pub set_alias : Value → DbusDataInfo → DbusDataInfo
set_alias (Value.text s) info =
    if is_empty (info DbusDataType.bt_device_name)
    then set_info DbusDataType.bt_device_name s info
    else info
set_alias _ info = info

unfoldable pub adapter_property : String → Value → DbusDataInfo → DbusDataInfo
adapter_property key v info =
    if str_eq key "Powered"
    then set_flag DbusDataType.bt_adapter_powered v info
    else if str_eq key "Discovering"
    then set_flag DbusDataType.bt_adapter_discovering v info
    else if str_eq key "Discoverable"
    then set_flag DbusDataType.bt_adapter_discoverable v info
    else info

unfoldable pub device_property : String → Value → DbusDataInfo → DbusDataInfo
device_property key v info =
    if str_eq key "Address"
    then set_text DbusDataType.bt_device_address v info
    else if str_eq key "Name"
    then set_text DbusDataType.bt_device_name v info
    else if str_eq key "RSSI"
    then set_rssi v info
    else if str_eq key "Paired"
    then set_flag DbusDataType.bt_device_paired v info
    else if str_eq key "Connected"
    then set_flag DbusDataType.bt_device_connected v info
    else if str_eq key "Trusted"
    then set_flag DbusDataType.bt_device_trusted v info
    else if str_eq key "Alias"
    then set_alias v info
    else if str_eq key "Icon"
    then set_text DbusDataType.bt_device_icon v info
    else info

-- The two loops over the entries.
unfoldable pub adapter_properties : Properties → DbusDataInfo → DbusDataInfo
adapter_properties [] info = info
adapter_properties ((key, v) ∷ ps) info = adapter_properties ps (adapter_property key v info)

unfoldable pub device_properties : Properties → DbusDataInfo → DbusDataInfo
device_properties [] info = info
device_properties ((key, v) ∷ ps) info = device_properties ps (device_property key v info)

unfoldable pub parse_adapter_properties : Properties → DbusDataInfo
unfolding adapter_properties
parse_adapter_properties ps = adapter_properties ps init_info

unfoldable pub parse_device_properties : Properties → DbusDataInfo
unfolding device_properties
parse_device_properties ps = device_properties ps init_info

-- What the reply of `GetAll` is parsed to; without one, nothing is known.
abbrev pub parse_reply : (Properties → DbusDataInfo) → Answer → DbusDataInfo
parse_reply parse (Answer.replied (Reply.properties ps)) = parse ps
parse_reply parse _ = init_info

abbrev pub get_all_call : (service path interface : String) → Call
get_all_call service path interface =
    call service path dbus_properties_interface "GetAll" (CallArg.text_arg interface ∷ [])

unfoldable pub get_all_device_properties : Bus → String → Hardware → DbusDataInfo × Hardware
unfolding parse_device_properties
get_all_device_properties bus path h =
    let (a, h') = ask bus (get_all_call bluez_service_name path bluez_device_interface) h in
    (parse_reply parse_device_properties a, h')

unfoldable pub get_all_adapter_properties : Bus → String → Hardware → DbusDataInfo × Hardware
unfolding parse_adapter_properties
get_all_adapter_properties bus path h =
    let (a, h') = ask bus (get_all_call bluez_service_name path bluez_adapter_interface) h in
    (parse_reply parse_adapter_properties a, h')
