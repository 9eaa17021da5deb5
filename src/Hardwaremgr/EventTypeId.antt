-- ===== src/Hardwaremgr/EventTypeId.antt =====
-- hardwaremgr/include/Configure/EventTypeId.hpp.

pub data EventTypeId : Type 0 where
  none_event initialize_bluetooth start_scan_btdevice stop_scan_btdevice : EventTypeId
  bluetooth_power_on bluetooth_power_off : EventTypeId
  pair_btdevice unpair_btdevice connect_btdevice disconnect_btdevice : EventTypeId
  reject_request_confirmation accept_request_confirmation : EventTypeId
  dial_call hangup_call answer_call max_event : EventTypeId
