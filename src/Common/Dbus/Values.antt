-- ===== src/Common/Dbus/Values.antt =====
-- The numbers by which the commands of common/include/Define.hpp travel.
use raspberrypiservice.Prelude.{
  ℕ, zero, suc, ◌≡◌, refl, List, [], ◌∷◌, Option, none, some, ℤ, pos, negsuc,
}
use raspberrypiservice.Common.Define.{DbusCommand}

-- The value of the enumerator.
abbrev pub command_value : DbusCommand → ℕ
command_value DbusCommand.none_command = 0
command_value DbusCommand.initialize_bluetooth = 1
command_value DbusCommand.start_scan_btdevice = 2
command_value DbusCommand.stop_scan_btdevice = 3
command_value DbusCommand.bluetooth_power_on = 4
command_value DbusCommand.bluetooth_power_off = 5
command_value DbusCommand.pair_btdevice = 6
command_value DbusCommand.unpair_btdevice = 7
command_value DbusCommand.connect_btdevice = 8
command_value DbusCommand.disconnect_btdevice = 9
command_value DbusCommand.reject_request_confirmation = 10
command_value DbusCommand.accept_request_confirmation = 11
command_value DbusCommand.dial_call = 12
command_value DbusCommand.hangup_call = 13
command_value DbusCommand.answer_call = 14
command_value DbusCommand.update_temperature_noti = 15
command_value DbusCommand.start_scan_btdevice_noti = 16
command_value DbusCommand.stop_scan_btdevice_noti = 17
command_value DbusCommand.scanning_btdevice_found_noti = 18
command_value DbusCommand.scanning_btdevice_delete_noti = 19
command_value DbusCommand.bluetooth_power_on_noti = 20
command_value DbusCommand.bluetooth_power_off_noti = 21
command_value DbusCommand.btdevice_property_change_noti = 22
command_value DbusCommand.pair_btdevice_noti = 23
command_value DbusCommand.unpair_btdevice_noti = 24
command_value DbusCommand.connect_btdevice_noti = 25
command_value DbusCommand.disconnect_btdevice_noti = 26
command_value DbusCommand.btdevice_request_confirmation_noti = 27
command_value DbusCommand.incoming_call_noti = 28
command_value DbusCommand.outgoing_call_noti = 29
command_value DbusCommand.call_state_changed_noti = 30
command_value DbusCommand.call_ended_noti = 31
command_value DbusCommand.dial_call_noti = 32
command_value DbusCommand.answer_call_noti = 33
command_value DbusCommand.hangup_call_noti = 34
command_value DbusCommand.pbap_session_end_noti = 35
command_value DbusCommand.pbap_phonebook_pull_start_noti = 36
command_value DbusCommand.pbap_phonebook_pull_noti = 37
command_value DbusCommand.pbap_phonebook_pull_end_noti = 38
command_value DbusCommand.call_history_pull_start_noti = 39
command_value DbusCommand.call_history_pull_noti = 40
command_value DbusCommand.call_history_pull_end_noti = 41
command_value DbusCommand.start_record = 42
command_value DbusCommand.stop_record = 43
command_value DbusCommand.cancel_record = 44
command_value DbusCommand.start_record_noti = 45
command_value DbusCommand.stop_record_noti = 46
command_value DbusCommand.cancel_record_noti = 47
command_value DbusCommand.filter_wav_file_noti = 48
command_value DbusCommand.max_command = 49

abbrev commands : List DbusCommand
commands =
    DbusCommand.none_command ∷ DbusCommand.initialize_bluetooth ∷ DbusCommand.start_scan_btdevice
    ∷ DbusCommand.stop_scan_btdevice ∷ DbusCommand.bluetooth_power_on
    ∷ DbusCommand.bluetooth_power_off ∷ DbusCommand.pair_btdevice ∷ DbusCommand.unpair_btdevice
    ∷ DbusCommand.connect_btdevice ∷ DbusCommand.disconnect_btdevice
    ∷ DbusCommand.reject_request_confirmation ∷ DbusCommand.accept_request_confirmation
    ∷ DbusCommand.dial_call ∷ DbusCommand.hangup_call ∷ DbusCommand.answer_call
    ∷ DbusCommand.update_temperature_noti ∷ DbusCommand.start_scan_btdevice_noti
    ∷ DbusCommand.stop_scan_btdevice_noti ∷ DbusCommand.scanning_btdevice_found_noti
    ∷ DbusCommand.scanning_btdevice_delete_noti ∷ DbusCommand.bluetooth_power_on_noti
    ∷ DbusCommand.bluetooth_power_off_noti ∷ DbusCommand.btdevice_property_change_noti
    ∷ DbusCommand.pair_btdevice_noti ∷ DbusCommand.unpair_btdevice_noti
    ∷ DbusCommand.connect_btdevice_noti ∷ DbusCommand.disconnect_btdevice_noti
    ∷ DbusCommand.btdevice_request_confirmation_noti ∷ DbusCommand.incoming_call_noti
    ∷ DbusCommand.outgoing_call_noti ∷ DbusCommand.call_state_changed_noti
    ∷ DbusCommand.call_ended_noti ∷ DbusCommand.dial_call_noti ∷ DbusCommand.answer_call_noti
    ∷ DbusCommand.hangup_call_noti ∷ DbusCommand.pbap_session_end_noti
    ∷ DbusCommand.pbap_phonebook_pull_start_noti ∷ DbusCommand.pbap_phonebook_pull_noti
    ∷ DbusCommand.pbap_phonebook_pull_end_noti ∷ DbusCommand.call_history_pull_start_noti
    ∷ DbusCommand.call_history_pull_noti ∷ DbusCommand.call_history_pull_end_noti
    ∷ DbusCommand.start_record ∷ DbusCommand.stop_record ∷ DbusCommand.cancel_record
    ∷ DbusCommand.start_record_noti ∷ DbusCommand.stop_record_noti ∷ DbusCommand.cancel_record_noti
    ∷ DbusCommand.filter_wav_file_noti ∷ DbusCommand.max_command ∷ []

abbrev get_elem? : {A : Type 0} → List A → ℕ → Option A
get_elem? [] n = none
get_elem? (x ∷ xs) zero = some x
get_elem? (x ∷ xs) (suc n) = get_elem? xs n

-- `static_cast<DBusCommand>`; `none` is a value of no enumerator, which every `switch` gives to its
-- `default`.
abbrev pub command_cast : ℤ → Option DbusCommand
command_cast (pos n) = get_elem? commands n
command_cast (negsuc n) = none

-- The value of a command is cast to the command.
pub command_cast-command_value :
    (cmd : DbusCommand) → command_cast (pos (command_value cmd)) ≡ some cmd
command_cast-command_value DbusCommand.none_command = refl
command_cast-command_value DbusCommand.initialize_bluetooth = refl
command_cast-command_value DbusCommand.start_scan_btdevice = refl
command_cast-command_value DbusCommand.stop_scan_btdevice = refl
command_cast-command_value DbusCommand.bluetooth_power_on = refl
command_cast-command_value DbusCommand.bluetooth_power_off = refl
command_cast-command_value DbusCommand.pair_btdevice = refl
command_cast-command_value DbusCommand.unpair_btdevice = refl
command_cast-command_value DbusCommand.connect_btdevice = refl
command_cast-command_value DbusCommand.disconnect_btdevice = refl
command_cast-command_value DbusCommand.reject_request_confirmation = refl
command_cast-command_value DbusCommand.accept_request_confirmation = refl
command_cast-command_value DbusCommand.dial_call = refl
command_cast-command_value DbusCommand.hangup_call = refl
command_cast-command_value DbusCommand.answer_call = refl
command_cast-command_value DbusCommand.update_temperature_noti = refl
command_cast-command_value DbusCommand.start_scan_btdevice_noti = refl
command_cast-command_value DbusCommand.stop_scan_btdevice_noti = refl
command_cast-command_value DbusCommand.scanning_btdevice_found_noti = refl
command_cast-command_value DbusCommand.scanning_btdevice_delete_noti = refl
command_cast-command_value DbusCommand.bluetooth_power_on_noti = refl
command_cast-command_value DbusCommand.bluetooth_power_off_noti = refl
command_cast-command_value DbusCommand.btdevice_property_change_noti = refl
command_cast-command_value DbusCommand.pair_btdevice_noti = refl
command_cast-command_value DbusCommand.unpair_btdevice_noti = refl
command_cast-command_value DbusCommand.connect_btdevice_noti = refl
command_cast-command_value DbusCommand.disconnect_btdevice_noti = refl
command_cast-command_value DbusCommand.btdevice_request_confirmation_noti = refl
command_cast-command_value DbusCommand.incoming_call_noti = refl
command_cast-command_value DbusCommand.outgoing_call_noti = refl
command_cast-command_value DbusCommand.call_state_changed_noti = refl
command_cast-command_value DbusCommand.call_ended_noti = refl
command_cast-command_value DbusCommand.dial_call_noti = refl
command_cast-command_value DbusCommand.answer_call_noti = refl
command_cast-command_value DbusCommand.hangup_call_noti = refl
command_cast-command_value DbusCommand.pbap_session_end_noti = refl
command_cast-command_value DbusCommand.pbap_phonebook_pull_start_noti = refl
command_cast-command_value DbusCommand.pbap_phonebook_pull_noti = refl
command_cast-command_value DbusCommand.pbap_phonebook_pull_end_noti = refl
command_cast-command_value DbusCommand.call_history_pull_start_noti = refl
command_cast-command_value DbusCommand.call_history_pull_noti = refl
command_cast-command_value DbusCommand.call_history_pull_end_noti = refl
command_cast-command_value DbusCommand.start_record = refl
command_cast-command_value DbusCommand.stop_record = refl
command_cast-command_value DbusCommand.cancel_record = refl
command_cast-command_value DbusCommand.start_record_noti = refl
command_cast-command_value DbusCommand.stop_record_noti = refl
command_cast-command_value DbusCommand.cancel_record_noti = refl
command_cast-command_value DbusCommand.filter_wav_file_noti = refl
command_cast-command_value DbusCommand.max_command = refl
