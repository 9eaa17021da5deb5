-- ===== src/Coremgr/HardwareHandler/Device.antt =====
-- HardwareHandler.cpp: the commands about one device and the notifications about devices.
use raspberrypiservice.Prelude.{Bool, true, String, List, [], ◌∷◌, Option, ℤ, if◌then◌else◌}
use raspberrypiservice.Common.Define.{DbusCommand}
use raspberrypiservice.Common.DbusData.{DbusDataType, DbusDataInfo, init_info, set_info}
use raspberrypiservice.Common.Event.{Payload}
use raspberrypiservice.Coremgr.Core.{
  Core, JsonValue, send_message_noti, update_state_and_broadcast, as_noti,
  as_noti_bt_device_address, as_bluetooth_device, as_bluetooth_device_address, when_some,
}

-- `DBusDataInfo data; data[DBUS_DATA_BT_DEVICE_ADDRESS] = address;`
abbrev pub address_info : String → DbusDataInfo
address_info address = set_info DbusDataType.bt_device_address address init_info

unfoldable pub pair_bt_device : Option Payload → Core → Core
pair_bt_device payload =
    when_some (as_bluetooth_device_address payload)
      λ address c. send_message_noti DbusCommand.pair_btdevice true (address_info address) c

unfoldable pub unpair_bt_device : Option Payload → Core → Core
unpair_bt_device payload =
    when_some (as_bluetooth_device_address payload)
      λ address c. send_message_noti DbusCommand.unpair_btdevice true (address_info address) c

unfoldable pub connect_bt_device : Option Payload → Core → Core
connect_bt_device payload =
    when_some (as_bluetooth_device_address payload)
      λ address c. send_message_noti DbusCommand.connect_btdevice true (address_info address) c

unfoldable pub disconnect_bt_device : Option Payload → Core → Core
disconnect_bt_device payload =
    when_some (as_bluetooth_device_address payload)
      λ address c. send_message_noti DbusCommand.disconnect_btdevice true (address_info address) c

-- The initializer that the two handlers of `BluetoothDevicePayload` write.
abbrev device_fields :
    (name address : String) (rssi : ℤ) (paired connected : Bool) (icon : String)
    → List (String × JsonValue)
device_fields name address rssi paired connected icon =
    ("device_name", JsonValue.text name)
    ∷ ("device_address", JsonValue.text address)
    ∷ ("rssi", JsonValue.number rssi)
    ∷ ("is_paired", JsonValue.flag paired)
    ∷ ("is_connected", JsonValue.flag connected)
    ∷ ("icon", JsonValue.text icon)
    ∷ []

unfoldable pub scanning_bt_device_found_noti : Option Payload → Core → Core
scanning_bt_device_found_noti payload =
    when_some (as_bluetooth_device payload) λ (name, address, rssi, paired, connected, icon) c.
      update_state_and_broadcast "success" "Scanning Bluetooth device found." "Settings"
        "scanning_btdevice_found_noti" (device_fields name address rssi paired connected icon) c

unfoldable pub scanning_bt_device_delete_noti : Option Payload → Core → Core
scanning_bt_device_delete_noti payload =
    when_some (as_bluetooth_device_address payload) λ address c.
      update_state_and_broadcast "success" "Scanning Bluetooth device deleted." "Settings"
        "scanning_btdevice_delete_noti" (("device_address", JsonValue.text address) ∷ []) c

unfoldable pub bt_device_property_change_noti : Option Payload → Core → Core
bt_device_property_change_noti payload =
    when_some (as_bluetooth_device payload) λ (name, address, rssi, paired, connected, icon) c.
      update_state_and_broadcast "success" "Bluetooth device property changed." "Settings"
        "btdevice_property_change_noti" (device_fields name address rssi paired connected icon) c

unfoldable pub pair_bt_device_noti : Option Payload → Core → Core
pair_bt_device_noti payload = when_some (as_noti payload) λ (ok, msg) c.
    if ok
    then update_state_and_broadcast "success" msg "Settings" "pair_btdevice_noti" [] c
    else update_state_and_broadcast "fail" msg "Settings" "pair_btdevice_noti" [] c

unfoldable pub unpair_bt_device_noti : Option Payload → Core → Core
unpair_bt_device_noti payload = when_some (as_noti payload) λ (ok, msg) c.
    if ok
    then update_state_and_broadcast "success" msg "Settings" "unpair_btdevice_noti" [] c
    else update_state_and_broadcast "fail" msg "Settings" "unpair_btdevice_noti" [] c

unfoldable pub connect_bt_device_noti : Option Payload → Core → Core
connect_bt_device_noti payload =
    when_some (as_noti_bt_device_address payload) λ (ok, msg, address) c.
      let fields = ("device_address", JsonValue.text address) ∷ [] in
      if ok
      then update_state_and_broadcast "success" msg "Settings" "connect_btdevice_noti" fields c
      else update_state_and_broadcast "fail" msg "Settings" "connect_btdevice_noti" fields c

unfoldable pub disconnect_bt_device_noti : Option Payload → Core → Core
disconnect_bt_device_noti payload =
    when_some (as_noti_bt_device_address payload) λ (ok, msg, address) c.
      let fields = ("device_address", JsonValue.text address) ∷ [] in
      if ok
      then update_state_and_broadcast "success" msg "Settings" "disconnect_btdevice_noti" fields c
      else update_state_and_broadcast "fail" msg "Settings" "disconnect_btdevice_noti" fields c
