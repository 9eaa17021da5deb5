-- ===== src/Services/Examples.antt =====
-- A filtered recording of two seconds.
use raspberrypiservice.Prelude.{ℕ, ◌≡◌, ◌++◌, String, Option, some, pos, [], arith}
use raspberrypiservice.Common.Event.{Event}
use raspberrypiservice.Common.EventQueue.{EventQueue}
use raspberrypiservice.Coremgr.EventTypeId.{EventTypeId}
use raspberrypiservice.Coremgr.DbusReceiver.{handle_message_noti}
use raspberrypiservice.Recordmgr.MainWorker.{filter_noti}
use raspberrypiservice.Services.{file_events, filter_noti-file_events}

-- Every text is read as zero degrees.
abbrev stof : String → Option ℕ
stof text = some 0

abbrev no_events : EventQueue (Event EventTypeId)
no_events = record { event_list = [] }

filter_noti-file_events_example :
    let n = filter_noti (some "/audio/a.wav") (pos 2) in
    handle_message_noti stof n.command n.is_success n.info no_events
    ≡ some (record { event_list = [] ++ file_events (some "/audio/a.wav") (pos 2) })
filter_noti-file_events_example =
    filter_noti-file_events stof (some "/audio/a.wav") 2 no_events (omega arith)
