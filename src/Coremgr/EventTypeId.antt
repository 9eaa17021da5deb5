-- ===== src/Coremgr/EventTypeId.antt =====
-- coremgr/include/Configure/EventTypeId.hpp.

pub data EventTypeId : Type 0 where
  none_event startup : EventTypeId
  start_scan_btdevice stop_scan_btdevice bluetooth_power_on bluetooth_power_off : EventTypeId
  pair_btdevice unpair_btdevice connect_btdevice disconnect_btdevice : EventTypeId
  accept_request_confirmation reject_request_confirmation : EventTypeId
  dial_call hangup_call answer_call : EventTypeId
  update_temperature_noti start_scan_btdevice_noti stop_scan_btdevice_noti : EventTypeId
  scanning_btdevice_found_noti scanning_btdevice_delete_noti : EventTypeId
  bluetooth_power_on_noti bluetooth_power_off_noti btdevice_property_change_noti : EventTypeId
  pair_btdevice_noti unpair_btdevice_noti connect_btdevice_noti : EventTypeId
  disconnect_btdevice_noti btdevice_request_confirmation_noti : EventTypeId
  btdevice_request_confirmation_timeout : EventTypeId
  pbap_session_end_noti pbap_phonebook_pull_start_noti pbap_phonebook_pull_noti : EventTypeId
  pbap_phonebook_pull_end_noti call_history_pull_start_noti : EventTypeId
  call_history_pull_noti call_history_pull_end_noti : EventTypeId
  incoming_call_noti outgoing_call_noti call_state_changed_noti call_ended_noti : EventTypeId
  dial_call_noti answer_call_noti hangup_call_noti : EventTypeId
  start_record stop_record cancel_record remove_record get_all_record : EventTypeId
  start_record_noti stop_record_noti cancel_record_noti : EventTypeId
  filter_wav_file_noti insert_wav_file : EventTypeId
  max_event : EventTypeId
