-- ===== src/Coremgr/RecordHandler.antt =====
-- coremgr/src/Controller/RecordHandler.cpp: the state of the recording.
use raspberrypiservice.Prelude.{[], Option, if◌then◌else◌}
use raspberrypiservice.Common.Define.{DbusCommand}
use raspberrypiservice.Common.Event.{Payload}
use raspberrypiservice.Coremgr.StateView.{RecordState}
use raspberrypiservice.Coremgr.Core.{
  Core, send_message, update_state_and_broadcast, as_noti, when_some,
}

abbrev set_record : RecordState → Core → Core
set_record s c = record c { view = record c.view { record_state = s } }

abbrev start_record_in : RecordState → Core → Core
start_record_in RecordState.stopped c =
    send_message DbusCommand.start_record (set_record RecordState.processing c)
start_record_in RecordState.recording c = c
start_record_in RecordState.processing c = c

unfoldable pub start_record : Core → Core
start_record c = start_record_in c.record_state c

abbrev stop_record_in : RecordState → Core → Core
stop_record_in RecordState.recording c =
    send_message DbusCommand.stop_record (set_record RecordState.processing c)
stop_record_in RecordState.stopped c = c
stop_record_in RecordState.processing c = c

unfoldable pub stop_record : Core → Core
stop_record c = stop_record_in c.record_state c

abbrev cancel_record_in : RecordState → Core → Core
cancel_record_in RecordState.recording c =
    send_message DbusCommand.cancel_record (set_record RecordState.processing c)
cancel_record_in RecordState.stopped c = c
cancel_record_in RecordState.processing c = c

unfoldable pub cancel_record : Core → Core
cancel_record c = cancel_record_in c.record_state c

unfoldable pub start_record_noti : Option Payload → Core → Core
start_record_noti payload = when_some (as_noti payload) λ (ok, msg) c.
    if ok
    then update_state_and_broadcast "success" msg "Record" "start_record_noti" []
        (set_record RecordState.recording c)
    else update_state_and_broadcast "fail" msg "Record" "start_record_noti" []
        (set_record RecordState.stopped c)

unfoldable pub stop_record_noti : Option Payload → Core → Core
stop_record_noti payload = when_some (as_noti payload) λ (ok, msg) c.
    if ok
    then update_state_and_broadcast "success" msg "Record" "stop_record_noti" []
        (set_record RecordState.stopped c)
    else update_state_and_broadcast "fail" msg "Record" "stop_record_noti" []
        (set_record RecordState.stopped c)

unfoldable pub cancel_record_noti : Option Payload → Core → Core
cancel_record_noti payload = when_some (as_noti payload) λ (ok, msg) c.
    if ok
    then update_state_and_broadcast "success" msg "Record" "cancel_record_noti" []
        (set_record RecordState.stopped c)
    else update_state_and_broadcast "fail" msg "Record" "cancel_record_noti" []
        (set_record RecordState.stopped c)

unfoldable pub filter_wav_file_noti : Option Payload → Core → Core
filter_wav_file_noti payload = when_some (as_noti payload) λ (ok, msg) c.
    if ok
    then update_state_and_broadcast "success" msg "Record" "filter_wav_file_noti" [] c
    else update_state_and_broadcast "fail" msg "Record" "filter_wav_file_noti" [] c
