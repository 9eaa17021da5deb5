-- ===== src/Coremgr/MainWorker/Frame.antt =====
-- What each event may change.
use raspberrypiservice.Prelude.{◌≡◌, ◌⊎◌, Option, some, arith}
use raspberrypiservice.Common.Event.{Payload, Event}
use raspberrypiservice.Coremgr.EventTypeId.{EventTypeId}
use raspberrypiservice.Coremgr.Core.{Core}
use raspberrypiservice.Coremgr.MainWorker.{Outside, handle, process_event}

-- The part of the state that an event is about; `nothing` for those that only pass on data.
pub data Area : Type 0 where
  nothing scan power call confirmation temperature recording : Area

abbrev pub area : EventTypeId → Area
area EventTypeId.start_scan_btdevice = scan
area EventTypeId.stop_scan_btdevice = scan
area EventTypeId.start_scan_btdevice_noti = scan
area EventTypeId.stop_scan_btdevice_noti = scan
area EventTypeId.bluetooth_power_on = power
area EventTypeId.bluetooth_power_off = power
area EventTypeId.bluetooth_power_on_noti = power
area EventTypeId.bluetooth_power_off_noti = power
area EventTypeId.dial_call = call
area EventTypeId.hangup_call = call
area EventTypeId.answer_call = call
area EventTypeId.incoming_call_noti = call
area EventTypeId.outgoing_call_noti = call
area EventTypeId.call_state_changed_noti = call
area EventTypeId.call_ended_noti = call
area EventTypeId.dial_call_noti = call
area EventTypeId.answer_call_noti = call
area EventTypeId.hangup_call_noti = call
area EventTypeId.accept_request_confirmation = confirmation
area EventTypeId.reject_request_confirmation = confirmation
area EventTypeId.btdevice_request_confirmation_noti = confirmation
area EventTypeId.update_temperature_noti = temperature
area EventTypeId.start_record = recording
area EventTypeId.stop_record = recording
area EventTypeId.cancel_record = recording
area EventTypeId.start_record_noti = recording
area EventTypeId.stop_record_noti = recording
area EventTypeId.cancel_record_noti = recording
area _ = nothing

-- From `c` to `c'` nothing changes outside the area, the outbox aside.
pub record KeepsRest (a : Area) (c c' : Core) : Type 0 where
  pub keeps_scan : (a ≡ scan) ⊎ (c'.scanning_btdevice_state ≡ c.scanning_btdevice_state)
  pub keeps_power : (a ≡ power) ⊎ (c'.bluetooth_power_state ≡ c.bluetooth_power_state)
  pub keeps_call : (a ≡ call) ⊎ (c'.call_state ≡ c.call_state)
  pub keeps_temperature : (a ≡ temperature) ⊎ (c'.current_temperature ≡ c.current_temperature)
  pub keeps_recording : (a ≡ recording) ⊎ (c'.record_state ≡ c.record_state)
  pub keeps_timer : (a ≡ confirmation) ⊎ (c'.timer ≡ c.timer)
  pub keeps_ids : (a ≡ confirmation) ⊎ (c'.timer_id_map ≡ c.timer_id_map)
  pub keeps_pool : c'.db_thread_pool_set ≡ c.db_thread_pool_set

handle-KeepsRest :
    (out : Outside) (id : EventTypeId) (payload : Option Payload) (c : Core)
    → KeepsRest (area id) c (handle out id payload c)
unfolding handle
handle-KeepsRest out EventTypeId.startup payload c = ground arith
handle-KeepsRest out _ payload c = ground arith

-- Whatever an event carries, handling it changes only the area of the state that its type is about.
pub process_event-KeepsRest :
    (out : Outside) (e : Event EventTypeId) (c : Core)
    → KeepsRest (area e.event_type_id) c (process_event out (some e) c)
unfolding process_event
process_event-KeepsRest out e c = handle-KeepsRest out e.event_type_id e.payload c
