-- ===== src/Coremgr/MainWorker.antt =====
-- coremgr/src/Thread/MainWorker.cpp: which handler an event goes to, and the thread's loop.
pub mod Payloads
pub mod Frame
pub mod Commands
pub mod Sent
use raspberrypiservice.Prelude.{ℕ, Bool, String, List, Option, none, some, ℤ, if◌then◌else◌}
use raspberrypiservice.Common.Event.{Payload, Event}
use raspberrypiservice.Common.EventQueue.{EventQueue, has_event, pop_event}
use raspberrypiservice.Coremgr.EventTypeId.{EventTypeId}
use raspberrypiservice.Coremgr.Core.{Core, AudioRecord}
use raspberrypiservice.Coremgr.HardwareHandler.{
  dial_call, hangup_call, answer_call, incoming_call_noti, outgoing_call_noti,
  call_state_changed_noti, call_ended_noti, dial_call_noti, hangup_call_noti, answer_call_noti,
  reject_bt_device_request_confirmation, accept_bt_device_request_confirmation,
  bt_device_request_confirmation_noti, handle_bt_device_request_confirmation_timeout,
  pair_bt_device, unpair_bt_device, connect_bt_device, disconnect_bt_device,
  scanning_bt_device_found_noti, scanning_bt_device_delete_noti, bt_device_property_change_noti,
  pair_bt_device_noti, unpair_bt_device_noti, connect_bt_device_noti, disconnect_bt_device_noti,
  pbap_session_end_noti, pbap_phonebook_pull_start_noti, pbap_phonebook_pull_noti,
  pbap_phonebook_pull_end_noti, call_history_pull_start_noti, call_history_pull_noti,
  call_history_pull_end_noti, start_scan_bt_device, stop_scan_bt_device, bluetooth_power_on,
  bluetooth_power_off, start_scan_bt_device_noti, stop_scan_bt_device_noti, bluetooth_power_on_noti,
  bluetooth_power_off_noti, update_temperature_noti,
}
use raspberrypiservice.Coremgr.RecordHandler.{
  start_record, stop_record, cancel_record, start_record_noti, stop_record_noti, cancel_record_noti,
  filter_wav_file_noti,
}
use raspberrypiservice.Coremgr.SqliteDbHandler.{
  get_all_audio_records, insert_audio_record, remove_audio_record,
}

-- What the outside answers while one event is handled: the clock, the conversion of a float to the
-- nearest `int`, the thread pool's results, and whether a file exists.
pub record Outside : Type 0 where
  pub now : ℕ
  pub to_int : ℕ → ℤ
  pub all_records : List AudioRecord
  pub inserted : String → ℤ → AudioRecord
  pub removed : ℤ → String
  pub exists : String → Bool

-- The `switch` of `processEvent`; the first clause is `STARTUP`, the last one is `default`.
handle : Outside → EventTypeId → Option Payload → Core → Core
unfolding dial_call hangup_call answer_call incoming_call_noti outgoing_call_noti
    call_state_changed_noti call_ended_noti dial_call_noti hangup_call_noti answer_call_noti
    reject_bt_device_request_confirmation accept_bt_device_request_confirmation
    bt_device_request_confirmation_noti handle_bt_device_request_confirmation_timeout pair_bt_device
    unpair_bt_device connect_bt_device disconnect_bt_device scanning_bt_device_found_noti
    scanning_bt_device_delete_noti bt_device_property_change_noti pair_bt_device_noti
    unpair_bt_device_noti connect_bt_device_noti disconnect_bt_device_noti pbap_session_end_noti
    pbap_phonebook_pull_start_noti pbap_phonebook_pull_noti pbap_phonebook_pull_end_noti
    call_history_pull_start_noti call_history_pull_noti call_history_pull_end_noti
    start_scan_bt_device stop_scan_bt_device bluetooth_power_on bluetooth_power_off
    start_scan_bt_device_noti stop_scan_bt_device_noti bluetooth_power_on_noti
    bluetooth_power_off_noti update_temperature_noti start_record stop_record cancel_record
    start_record_noti stop_record_noti cancel_record_noti filter_wav_file_noti get_all_audio_records
    insert_audio_record remove_audio_record
handle out EventTypeId.startup payload c = c
handle out EventTypeId.start_scan_btdevice payload c = start_scan_bt_device c
handle out EventTypeId.stop_scan_btdevice payload c = stop_scan_bt_device c
handle out EventTypeId.bluetooth_power_on payload c = bluetooth_power_on c
handle out EventTypeId.bluetooth_power_off payload c = bluetooth_power_off c
handle out EventTypeId.pair_btdevice payload c = pair_bt_device payload c
handle out EventTypeId.unpair_btdevice payload c = unpair_bt_device payload c
handle out EventTypeId.connect_btdevice payload c = connect_bt_device payload c
handle out EventTypeId.disconnect_btdevice payload c = disconnect_bt_device payload c
handle out EventTypeId.accept_request_confirmation payload c =
    accept_bt_device_request_confirmation payload c
handle out EventTypeId.reject_request_confirmation payload c =
    reject_bt_device_request_confirmation payload c
handle out EventTypeId.dial_call payload c = dial_call payload c
handle out EventTypeId.hangup_call payload c = hangup_call c
handle out EventTypeId.answer_call payload c = answer_call c
handle out EventTypeId.update_temperature_noti payload c =
    update_temperature_noti out.to_int payload c
handle out EventTypeId.start_scan_btdevice_noti payload c = start_scan_bt_device_noti payload c
handle out EventTypeId.stop_scan_btdevice_noti payload c = stop_scan_bt_device_noti payload c
handle out EventTypeId.scanning_btdevice_found_noti payload c =
    scanning_bt_device_found_noti payload c
handle out EventTypeId.scanning_btdevice_delete_noti payload c =
    scanning_bt_device_delete_noti payload c
handle out EventTypeId.bluetooth_power_on_noti payload c = bluetooth_power_on_noti payload c
handle out EventTypeId.bluetooth_power_off_noti payload c = bluetooth_power_off_noti payload c
handle out EventTypeId.btdevice_property_change_noti payload c =
    bt_device_property_change_noti payload c
handle out EventTypeId.pair_btdevice_noti payload c = pair_bt_device_noti payload c
handle out EventTypeId.unpair_btdevice_noti payload c = unpair_bt_device_noti payload c
handle out EventTypeId.connect_btdevice_noti payload c = connect_bt_device_noti payload c
handle out EventTypeId.disconnect_btdevice_noti payload c = disconnect_bt_device_noti payload c
handle out EventTypeId.btdevice_request_confirmation_noti payload c =
    bt_device_request_confirmation_noti out.now payload c
handle out EventTypeId.btdevice_request_confirmation_timeout payload c =
    handle_bt_device_request_confirmation_timeout payload c
handle out EventTypeId.pbap_session_end_noti payload c = pbap_session_end_noti payload c
handle out EventTypeId.pbap_phonebook_pull_start_noti payload c =
    pbap_phonebook_pull_start_noti payload c
handle out EventTypeId.pbap_phonebook_pull_noti payload c = pbap_phonebook_pull_noti payload c
handle out EventTypeId.pbap_phonebook_pull_end_noti payload c =
    pbap_phonebook_pull_end_noti payload c
handle out EventTypeId.call_history_pull_start_noti payload c =
    call_history_pull_start_noti payload c
handle out EventTypeId.call_history_pull_noti payload c = call_history_pull_noti payload c
handle out EventTypeId.call_history_pull_end_noti payload c = call_history_pull_end_noti payload c
handle out EventTypeId.incoming_call_noti payload c = incoming_call_noti payload c
handle out EventTypeId.outgoing_call_noti payload c = outgoing_call_noti payload c
handle out EventTypeId.call_state_changed_noti payload c = call_state_changed_noti payload c
handle out EventTypeId.call_ended_noti payload c = call_ended_noti payload c
handle out EventTypeId.dial_call_noti payload c = dial_call_noti payload c
handle out EventTypeId.answer_call_noti payload c = answer_call_noti payload c
handle out EventTypeId.hangup_call_noti payload c = hangup_call_noti payload c
handle out EventTypeId.start_record payload c = start_record c
handle out EventTypeId.stop_record payload c = stop_record c
handle out EventTypeId.cancel_record payload c = cancel_record c
handle out EventTypeId.remove_record payload c =
    remove_audio_record out.removed out.exists payload c
handle out EventTypeId.get_all_record payload c = get_all_audio_records out.all_records c
handle out EventTypeId.insert_wav_file payload c = insert_audio_record out.inserted payload c
handle out EventTypeId.start_record_noti payload c = start_record_noti payload c
handle out EventTypeId.stop_record_noti payload c = stop_record_noti payload c
handle out EventTypeId.cancel_record_noti payload c = cancel_record_noti payload c
handle out EventTypeId.filter_wav_file_noti payload c = filter_wav_file_noti payload c
handle out _ payload c = c

pub process_event : Outside → Option (Event EventTypeId) → Core → Core
process_event out none c = c
process_event out (some e) c = handle out e.event_type_id e.payload c

-- One round of `threadFunction`: the event at the front is handled; with no event the thread waits.
pub thread_round :
    Outside → Core → EventQueue (Event EventTypeId) → Core × EventQueue (Event EventTypeId)
thread_round out c q =
    let (event, q') = pop_event q in if has_event q then (process_event out event c, q') else (c, q)
