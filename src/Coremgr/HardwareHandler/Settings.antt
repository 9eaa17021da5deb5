-- ===== src/Coremgr/HardwareHandler/Settings.antt =====
-- HardwareHandler.cpp: scanning, the adapter's power and the temperature.
use raspberrypiservice.Prelude.{ℕ, [], ◌∷◌, Option, ℤ, pos, int_eq, if◌then◌else◌}
use raspberrypiservice.Common.Define.{DbusCommand}
use raspberrypiservice.Common.Event.{Payload}
use raspberrypiservice.Coremgr.StateView.{ScanningBtDeviceState, BluetoothPowerState}
use raspberrypiservice.Coremgr.Core.{
  Core, JsonValue, send_message, update_state_and_broadcast, as_noti, as_noti_temperature,
  when_some,
}

abbrev set_scanning : ScanningBtDeviceState → Core → Core
set_scanning s c = record c { view = record c.view { scanning_btdevice_state = s } }

abbrev set_power : BluetoothPowerState → Core → Core
set_power s c = record c { view = record c.view { bluetooth_power_state = s } }

abbrev start_scan_in : ScanningBtDeviceState → Core → Core
start_scan_in ScanningBtDeviceState.idle c =
    send_message DbusCommand.start_scan_btdevice (set_scanning ScanningBtDeviceState.processing c)
start_scan_in ScanningBtDeviceState.scanning c = c
start_scan_in ScanningBtDeviceState.processing c = c

unfoldable pub start_scan_bt_device : Core → Core
start_scan_bt_device c = start_scan_in c.scanning_btdevice_state c

abbrev stop_scan_in : ScanningBtDeviceState → Core → Core
stop_scan_in ScanningBtDeviceState.scanning c =
    set_scanning ScanningBtDeviceState.processing (send_message DbusCommand.stop_scan_btdevice c)
stop_scan_in ScanningBtDeviceState.idle c = c
stop_scan_in ScanningBtDeviceState.processing c = c

unfoldable pub stop_scan_bt_device : Core → Core
stop_scan_bt_device c = stop_scan_in c.scanning_btdevice_state c

abbrev power_on_in : BluetoothPowerState → Core → Core
power_on_in BluetoothPowerState.off c =
    send_message DbusCommand.bluetooth_power_on (set_power BluetoothPowerState.processing c)
power_on_in BluetoothPowerState.on c = c
power_on_in BluetoothPowerState.processing c = c

unfoldable pub bluetooth_power_on : Core → Core
bluetooth_power_on c = power_on_in c.bluetooth_power_state c

abbrev power_off_in : BluetoothPowerState → Core → Core
power_off_in BluetoothPowerState.on c =
    send_message DbusCommand.bluetooth_power_off (set_power BluetoothPowerState.processing c)
power_off_in BluetoothPowerState.off c = c
power_off_in BluetoothPowerState.processing c = c

unfoldable pub bluetooth_power_off : Core → Core
bluetooth_power_off c = power_off_in c.bluetooth_power_state c

unfoldable pub start_scan_bt_device_noti : Option Payload → Core → Core
start_scan_bt_device_noti payload = when_some (as_noti payload) λ (ok, msg) c.
    if ok
    then update_state_and_broadcast "success" msg "Settings" "start_scan_btdevice_noti" []
        (set_scanning ScanningBtDeviceState.scanning c)
    else update_state_and_broadcast "fail" msg "Settings" "start_scan_btdevice_noti" []
        (set_scanning ScanningBtDeviceState.idle c)

unfoldable pub stop_scan_bt_device_noti : Option Payload → Core → Core
stop_scan_bt_device_noti payload = when_some (as_noti payload) λ (ok, msg) c.
    if ok
    then update_state_and_broadcast "success" msg "Settings" "stop_scan_btdevice_noti" []
        (set_scanning ScanningBtDeviceState.idle c)
    else update_state_and_broadcast "fail" msg "Settings" "stop_scan_btdevice_noti" []
        (set_scanning ScanningBtDeviceState.scanning c)

unfoldable pub bluetooth_power_on_noti : Option Payload → Core → Core
bluetooth_power_on_noti payload = when_some (as_noti payload) λ (ok, msg) c.
    if ok
    then update_state_and_broadcast "success" msg "Settings" "bluetooth_power_on_noti" []
        (set_power BluetoothPowerState.on c)
    else update_state_and_broadcast "fail" msg "Settings" "bluetooth_power_on_noti" []
        (set_power BluetoothPowerState.off c)

unfoldable pub bluetooth_power_off_noti : Option Payload → Core → Core
bluetooth_power_off_noti payload = when_some (as_noti payload) λ (ok, msg) c.
    if ok
    then update_state_and_broadcast "success" msg "Settings" "bluetooth_power_off_noti" []
        (set_power BluetoothPowerState.off c)
    else update_state_and_broadcast "fail" msg "Settings" "bluetooth_power_off_noti" []
        (set_power BluetoothPowerState.on c)

-- `to_int` is `static_cast<int>(x + 0.5f)` on the float whose bit pattern is given.
unfoldable pub update_temperature_noti : (to_int : ℕ → ℤ) → Option Payload → Core → Core
update_temperature_noti to_int payload =
    when_some (as_noti_temperature payload) λ (ok, temperature) c.
      let next = to_int temperature in
      if ok
      then if int_eq c.current_temperature next
        then c
        else update_state_and_broadcast "success"
            "Temperature updated successfully from Hardware Manager Service." "Header"
            "update_temperature_noti" (("temperature", JsonValue.number next) ∷ [])
            (record c { view = record c.view { current_temperature = next } })
      else update_state_and_broadcast "fail"
          "Failed to update temperature from Hardware Manager Service. Check sensor connection."
          "Header" "update_temperature_noti" (("temperature", JsonValue.number (pos 0)) ∷ []) c
