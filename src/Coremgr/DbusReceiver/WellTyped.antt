-- ===== src/Coremgr/DbusReceiver/WellTyped.antt =====
-- The events that notifications become, against what the main thread expects.
use mathlib.Core.Option
use raspberrypiservice.Prelude.{
  ℕ, ◌≡◌, refl, Bool, true, false, String, List, [], ◌∷◌, ◌++◌, Option, none, some, All, is_some,
  append_assoc, ◌∙◌, sym, append-nil, arith,
}
use raspberrypiservice.Common.Define.{DbusCommand}
use raspberrypiservice.Common.DbusData.{DbusDataType, DbusDataInfo}
use raspberrypiservice.Common.Stdlib.{stoi}
use raspberrypiservice.Common.Event.{Event}
use raspberrypiservice.Common.EventQueue.{EventQueue, push_event}
use raspberrypiservice.Coremgr.EventTypeId.{EventTypeId}
use raspberrypiservice.Coremgr.MainWorker.Payloads.{is_well_typed}
use raspberrypiservice.Coremgr.MainWorker.Commands.{is_request}
use raspberrypiservice.Coremgr.DbusReceiver.{notifications, push_each, handle_message_noti}

-- An event that its handler takes, and that is no request of a client.
abbrev pub WellTypedNoti : Event EventTypeId → Type 0
WellTypedNoti e = (is_well_typed e ≡ true) × (is_request e.event_type_id ≡ false)

abbrev pub AllSome : (Event EventTypeId → Type 0) → Option (List (Event EventTypeId)) → Type 0
AllSome P none = Unit
AllSome P (some es) = All P es

notifications-AllSome :
    (stof : String → Option ℕ) (cmd : DbusCommand) (ok : Bool) (info : DbusDataInfo)
    → AllSome WellTypedNoti (notifications stof cmd ok info)
unfolding notifications
notifications-AllSome stof DbusCommand.none_command ok info = tt
notifications-AllSome stof _ ok info = ground arith

push_each-append :
    (es : List (Event EventTypeId)) (q : EventQueue (Event EventTypeId))
    → (push_each es q).event_list ≡ q.event_list ++ es
unfolding push_each push_event
push_each-append [] q = sym (append-nil q.event_list)
push_each-append (e ∷ es) q =
    push_each-append es (push_event (some e) q).0 ∙ append_assoc q.event_list (e ∷ []) es

-- The texts that are read as numbers are numbers.
pub record HasNumbers (stof : String → Option ℕ) (info : DbusDataInfo) : Type 0 where
  pub temperature_parses : is_some (stof (info DbusDataType.temperature_value)) ≡ true
  pub rssi_parses : is_some (stoi (info DbusDataType.bt_device_rssi)) ≡ true
  pub duration_parses : is_some (stoi (info DbusDataType.wav_file_duration_sec)) ≡ true

notifications_total :
    (stof : String → Option ℕ) (cmd : DbusCommand) (ok : Bool) (info : DbusDataInfo)
    → HasNumbers stof info
    → is_some (notifications stof cmd ok info) ≡ true
unfolding notifications
notifications_total stof DbusCommand.none_command ok info h = refl
notifications_total stof _ ok info h = ground arith

queued :
    (es : Option (List (Event EventTypeId))) (q : EventQueue (Event EventTypeId))
    → is_some es ≡ true
    → AllSome WellTypedNoti es
    → (new : List (Event EventTypeId)) × (q' : EventQueue (Event EventTypeId)) × (Option.map
          (λ es. push_each es q)
          es
        ≡ some q')
      × (q'.event_list ≡ q.event_list ++ new)
      × All WellTypedNoti new
queued none q h a = cc
queued (some es) q h a = (es, push_each es q, refl, push_each-append es q, a)

-- A notification whose numbers parse never stops the receiver: it leaves what is queued and adds
-- events behind it, each of which its handler takes and none of which is a request.
pub handle_message_noti-WellTyped :
    (stof : String → Option ℕ) (cmd : DbusCommand) (ok : Bool) (info : DbusDataInfo)
    (q : EventQueue (Event EventTypeId))
    → HasNumbers stof info
    → (new : List (Event EventTypeId)) × (q' : EventQueue (Event EventTypeId))
      × (handle_message_noti stof cmd ok info q ≡ some q')
      × (q'.event_list ≡ q.event_list ++ new)
      × All WellTypedNoti new
unfolding handle_message_noti
handle_message_noti-WellTyped stof cmd ok info q h =
    queued (notifications stof cmd ok info) q (notifications_total stof cmd ok info h)
      (notifications-AllSome stof cmd ok info)
