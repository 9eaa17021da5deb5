-- ===== src/Hardwaremgr/Notifications/Fit.antt =====
-- Notifications that the factory makes a signal of and whose numbers the core manager can read.
use raspberrypiservice.Prelude.{◌≡◌, refl, Bool, true, false, String, ◌∷◌, All, if◌then◌else◌}
use raspberrypiservice.Common.Define.{DbusCommand}
use raspberrypiservice.Common.DbusData.{DbusDataType, DbusDataInfo, init_info, set_info}
use raspberrypiservice.Hardwaremgr.Hardware.{Noti, noti, Hardware}
use raspberrypiservice.Hardwaremgr.Notifications.Parsed.{
  HasNumbers, init_info-HasNumbers, set_info-HasNumbers,
}

-- The commands that `HMSenderFactory` knows.
abbrev pub is_announced : DbusCommand → Bool
is_announced DbusCommand.update_temperature_noti = true
is_announced DbusCommand.start_scan_btdevice_noti = true
is_announced DbusCommand.stop_scan_btdevice_noti = true
is_announced DbusCommand.scanning_btdevice_found_noti = true
is_announced DbusCommand.scanning_btdevice_delete_noti = true
is_announced DbusCommand.bluetooth_power_on_noti = true
is_announced DbusCommand.bluetooth_power_off_noti = true
is_announced DbusCommand.btdevice_property_change_noti = true
is_announced DbusCommand.pair_btdevice_noti = true
is_announced DbusCommand.unpair_btdevice_noti = true
is_announced DbusCommand.connect_btdevice_noti = true
is_announced DbusCommand.disconnect_btdevice_noti = true
is_announced DbusCommand.btdevice_request_confirmation_noti = true
is_announced DbusCommand.pbap_phonebook_pull_start_noti = true
is_announced DbusCommand.pbap_phonebook_pull_noti = true
is_announced DbusCommand.pbap_phonebook_pull_end_noti = true
is_announced DbusCommand.call_history_pull_start_noti = true
is_announced DbusCommand.call_history_pull_noti = true
is_announced DbusCommand.call_history_pull_end_noti = true
is_announced DbusCommand.pbap_session_end_noti = true
is_announced DbusCommand.incoming_call_noti = true
is_announced DbusCommand.outgoing_call_noti = true
is_announced DbusCommand.call_state_changed_noti = true
is_announced DbusCommand.call_ended_noti = true
is_announced DbusCommand.dial_call_noti = true
is_announced DbusCommand.answer_call_noti = true
is_announced DbusCommand.hangup_call_noti = true
is_announced _ = false

abbrev pub IsFit : Noti → Type 0
IsFit (noti cmd ok info) = (is_announced cmd ≡ true) × HasNumbers info

-- All that has been sent is fit.
pub record Fit (h : Hardware) : Type 0 where
  pub all_fit : All IsFit h.sent

pub if-Fit : (b : Bool) (h h' : Hardware) → Fit h → Fit h' → Fit (if b then h else h')
if-Fit true h h' f g = f
if-Fit false h h' f g = g

-- A notification added.
pub notify-Fit :
    (cmd : DbusCommand) (ok : Bool) (info : DbusDataInfo) (h : Hardware)
    → is_announced cmd ≡ true
    → HasNumbers info
    → Fit h
    → Fit (record h { sent = noti cmd ok info ∷ h.sent })
notify-Fit cmd ok info h a n f = record { all_fit = ((a, n), f.all_fit) }

-- The data with only a message, and with a message added.
pub message-HasNumbers : (text : String) → HasNumbers (set_info DbusDataType.message text init_info)
message-HasNumbers text =
    set_info-HasNumbers DbusDataType.message text init_info refl init_info-HasNumbers

pub with_message-HasNumbers :
    (text : String) (info : DbusDataInfo)
    → HasNumbers info
    → HasNumbers (set_info DbusDataType.message text info)
with_message-HasNumbers text info n = set_info-HasNumbers DbusDataType.message text info refl n
