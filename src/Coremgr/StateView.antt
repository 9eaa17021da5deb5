-- ===== src/Coremgr/StateView.antt =====
-- coremgr/include/Configure/StateView.hpp: what the core manager shows its clients.
use raspberrypiservice.Prelude.{ℤ, pos}

pub data RecordState : Type 0 where
  stopped recording processing : RecordState

pub data ScanningBtDeviceState : Type 0 where
  idle scanning processing : ScanningBtDeviceState

pub data BluetoothPowerState : Type 0 where
  off on processing : BluetoothPowerState

pub data CallState : Type 0 where
  idle processing incoming outcoming calling : CallState

pub record StateView : Type 0 where
  pub record_state : RecordState
  pub current_temperature : ℤ
  pub scanning_btdevice_state : ScanningBtDeviceState
  pub bluetooth_power_state : BluetoothPowerState
  pub call_state : CallState

unfoldable pub init_view : StateView
init_view = record {
  record_state = RecordState.stopped;
  current_temperature = pos 0;
  scanning_btdevice_state = ScanningBtDeviceState.idle;
  bluetooth_power_state = BluetoothPowerState.off;
  call_state = CallState.idle;
}
