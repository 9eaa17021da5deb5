-- ===== src/Hardwaremgr/Notifications/Bluez.antt =====
-- The requests to BlueZ, and what is announced of its adapter.
use Prim.Native.String.{◌++◌ as str_append}
use raspberrypiservice.Prelude.{◌≡◌, refl, Bool, true, false, String}
use raspberrypiservice.Common.Define.{DbusCommand}
use raspberrypiservice.Common.DbusData.{DbusDataType, DbusDataInfo, init_info, set_info}
use raspberrypiservice.Hardwaremgr.Hardware.{Call, Answer, Bus, Hardware, ask}
use raspberrypiservice.Hardwaremgr.BluezDbus.Parse.{get_all_device_properties}
use raspberrypiservice.Hardwaremgr.BluezDbus.Requests.{
  report, report_power, power_noti, address_info, untrust, start_discovery, stop_discovery,
  set_power, pair_device, connect_device, disconnect_device, trust_device, unpair_device,
  set_discoverable,
}
use raspberrypiservice.Hardwaremgr.BluezDbus.Adapter.{power_on_adapter, power_off_adapter}
use raspberrypiservice.Hardwaremgr.Notifications.Parsed.{
  HasNumbers, init_info-HasNumbers, set_info-HasNumbers,
}
use raspberrypiservice.Hardwaremgr.Notifications.Fit.{
  is_announced, Fit, if-Fit, notify-Fit, message-HasNumbers, with_message-HasNumbers,
}

-- What asks without announcing keeps what has been sent.
pub ask-Fit : (bus : Bus) (c : Call) (h : Hardware) → Fit h → Fit (ask bus c h).1
ask-Fit bus c h f = record { all_fit = f.all_fit }

report-Fit :
    (cmd : DbusCommand) (text prefix : String) (info : DbusDataInfo) (x : Answer × Hardware)
    → is_announced cmd ≡ true
    → HasNumbers info
    → Fit x.1
    → Fit (report cmd text prefix info x)
report-Fit cmd text prefix info (Answer.no_message, h) a n f =
    notify-Fit cmd false (set_info DbusDataType.message text info) h a
      (with_message-HasNumbers text info n) f
report-Fit cmd text prefix info (Answer.failed e, h) a n f =
    notify-Fit cmd false (set_info DbusDataType.message (str_append prefix e) info) h a
      (with_message-HasNumbers (str_append prefix e) info n) f
report-Fit cmd text prefix info (_, h) a n f = f

address_info-HasNumbers : (address : String) → HasNumbers (address_info address)
address_info-HasNumbers address =
    set_info-HasNumbers DbusDataType.bt_device_address address init_info refl init_info-HasNumbers

ruleset requests = (report-Fit, ask-Fit, address_info-HasNumbers, init_info-HasNumbers)

pub start_discovery-Fit : (bus : Bus) (h : Hardware) → Fit h → Fit (start_discovery bus h)
unfolding start_discovery
start_discovery-Fit bus h f = search requests

pub stop_discovery-Fit : (bus : Bus) (h : Hardware) → Fit h → Fit (stop_discovery bus h)
unfolding stop_discovery
stop_discovery-Fit bus h f = search requests

pub pair_device-Fit :
    (address : String) (bus : Bus) (h : Hardware) → Fit h → Fit (pair_device address bus h)
unfolding pair_device
pair_device-Fit address bus h f = search requests

pub connect_device-Fit :
    (address : String) (bus : Bus) (h : Hardware) → Fit h → Fit (connect_device address bus h)
unfolding connect_device
connect_device-Fit address bus h f = search requests

pub disconnect_device-Fit :
    (address : String) (bus : Bus) (h : Hardware) → Fit h → Fit (disconnect_device address bus h)
unfolding disconnect_device
disconnect_device-Fit address bus h f = search requests

pub trust_device-Fit :
    (address : String) (bus : Bus) (h : Hardware) → Fit h → Fit (trust_device address bus h)
unfolding trust_device
trust_device-Fit address bus h f = search requests

untrust-Fit :
    (path : String) (bus : Bus) (x : DbusDataInfo × Hardware) → Fit x.1 → Fit (untrust path bus x)
untrust-Fit path bus (info, h) f = search (requests, if-Fit)

pub unpair_device-Fit :
    (address : String) (bus : Bus) (h : Hardware) → Fit h → Fit (unpair_device address bus h)
unfolding unpair_device get_all_device_properties
unpair_device-Fit address bus h f = search (requests, untrust-Fit)

pub set_discoverable-Fit :
    (on : Bool) (bus : Bus) (h : Hardware) → Fit h → Fit (set_discoverable on bus h)
unfolding set_discoverable
set_discoverable-Fit on bus h f = search requests

report_power-Fit :
    (on : Bool) (x : Answer × Hardware) → Fit x.1 → Fit (report_power (power_noti on) x)
report_power-Fit true (Answer.failed e, h) f =
    notify-Fit DbusCommand.bluetooth_power_on_noti false
      (set_info DbusDataType.message (str_append "Error setting adapter power: " e) init_info) h
      refl (message-HasNumbers (str_append "Error setting adapter power: " e)) f
report_power-Fit false (Answer.failed e, h) f =
    notify-Fit DbusCommand.bluetooth_power_off_noti false
      (set_info DbusDataType.message (str_append "Error setting adapter power: " e) init_info) h
      refl (message-HasNumbers (str_append "Error setting adapter power: " e)) f
report_power-Fit on (_, h) f = f

pub set_power-Fit : (on : Bool) (bus : Bus) (h : Hardware) → Fit h → Fit (set_power on bus h)
unfolding set_power
set_power-Fit on bus h f = search (requests, report_power-Fit)

pub power_on_adapter-Fit : (bus : Bus) (h : Hardware) → Fit h → Fit (power_on_adapter bus h)
unfolding power_on_adapter
power_on_adapter-Fit bus h f = set_power-Fit true bus h f

pub power_off_adapter-Fit : (bus : Bus) (h : Hardware) → Fit h → Fit (power_off_adapter bus h)
unfolding power_off_adapter
power_off_adapter-Fit bus h f = set_power-Fit false bus h f
