-- ===== src/Common/DbusData.antt =====
-- common/include/DBus/DBusData.hpp: the array of strings that a notification carries.
use raspberrypiservice.Prelude.{ℕ, ◌==◌, if◌then◌else◌, String}

pub data DbusDataType : Type 0 where
  message temperature_value : DbusDataType
  bt_device_name bt_device_address bt_device_rssi bt_device_paired : DbusDataType
  bt_device_connected bt_device_trusted bt_device_icon : DbusDataType
  bt_adapter_powered bt_adapter_discovering bt_adapter_discoverable : DbusDataType
  bt_pairing_passkey : DbusDataType
  contact_name contact_number : DbusDataType
  call_number call_name call_state : DbusDataType
  call_history_name call_history_number call_history_type call_history_datetime : DbusDataType
  wav_file_path wav_file_duration_sec : DbusDataType

-- The value of the enumerator, which is its index in the array.
abbrev pub data_index : DbusDataType → ℕ
data_index message = 0
data_index temperature_value = 1
data_index bt_device_name = 2
data_index bt_device_address = 3
data_index bt_device_rssi = 4
data_index bt_device_paired = 5
data_index bt_device_connected = 6
data_index bt_device_trusted = 7
data_index bt_device_icon = 8
data_index bt_adapter_powered = 9
data_index bt_adapter_discovering = 10
data_index bt_adapter_discoverable = 11
data_index bt_pairing_passkey = 12
data_index contact_name = 13
data_index contact_number = 14
data_index call_number = 15
data_index call_name = 16
data_index call_state = 17
data_index call_history_name = 18
data_index call_history_number = 19
data_index call_history_type = 20
data_index call_history_datetime = 21
data_index wav_file_path = 22
data_index wav_file_duration_sec = 23

-- `std::string data[DBUS_DATA_MAX]`, read by `operator[]`.
abbrev pub DbusDataInfo : Type 0
DbusDataInfo = DbusDataType → String

-- The constructor's defaults.
unfoldable pub init_info : DbusDataInfo
init_info temperature_value = "0.0"
init_info bt_device_rssi = "0"
init_info wav_file_duration_sec = "0"
init_info _ = ""

-- `info[k] = v`.
unfoldable pub set_info : DbusDataType → String → DbusDataInfo → DbusDataInfo
set_info k v info j = if data_index j == data_index k then v else info j
