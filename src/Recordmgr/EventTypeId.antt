-- ===== src/Recordmgr/EventTypeId.antt =====
-- recordmgr/include/Configure/EventTypeId.hpp.

pub data EventTypeId : Type 0 where
  none_event start_record stop_record cancel_record filter_wav_file max_event : EventTypeId
