-- ===== src/Common/Define.antt =====
-- common/include/Define.hpp: the commands that travel between the managers.

pub data DbusCommand : Type 0 where
  none_command : DbusCommand
  initialize_bluetooth start_scan_btdevice stop_scan_btdevice : DbusCommand
  bluetooth_power_on bluetooth_power_off : DbusCommand
  pair_btdevice unpair_btdevice connect_btdevice disconnect_btdevice : DbusCommand
  reject_request_confirmation accept_request_confirmation : DbusCommand
  dial_call hangup_call answer_call : DbusCommand
  update_temperature_noti start_scan_btdevice_noti stop_scan_btdevice_noti : DbusCommand
  scanning_btdevice_found_noti scanning_btdevice_delete_noti : DbusCommand
  bluetooth_power_on_noti bluetooth_power_off_noti btdevice_property_change_noti : DbusCommand
  pair_btdevice_noti unpair_btdevice_noti connect_btdevice_noti : DbusCommand
  disconnect_btdevice_noti btdevice_request_confirmation_noti : DbusCommand
  incoming_call_noti outgoing_call_noti call_state_changed_noti call_ended_noti : DbusCommand
  dial_call_noti answer_call_noti hangup_call_noti : DbusCommand
  pbap_session_end_noti pbap_phonebook_pull_start_noti pbap_phonebook_pull_noti : DbusCommand
  pbap_phonebook_pull_end_noti call_history_pull_start_noti : DbusCommand
  call_history_pull_noti call_history_pull_end_noti : DbusCommand
  start_record stop_record cancel_record : DbusCommand
  start_record_noti stop_record_noti cancel_record_noti filter_wav_file_noti : DbusCommand
  max_command : DbusCommand
