-- ===== src/Coremgr/MainWorker/Sent.antt =====
-- The commands that the handlers send, against what the factory (coremgr/src/DBus/CMSenderFactory.cpp)
-- makes of them.
use raspberrypiservice.Prelude.{
  ◌≡◌, refl, sym, subst, ◌⊎◌, inl, inr, Bool, true, false, List, [], ◌∷◌, Option, some, All, arith,
}
use raspberrypiservice.Common.Define.{DbusCommand}
use raspberrypiservice.Common.DbusData.{DbusDataInfo}
use raspberrypiservice.Common.Event.{Payload, Event}
use raspberrypiservice.Common.Dbus.Libdbus.{Libdbus}
use raspberrypiservice.Coremgr.EventTypeId.{EventTypeId}
use raspberrypiservice.Coremgr.Core.{Core, Effect}
use raspberrypiservice.Coremgr.MainWorker.{Outside, handle, process_event}
use raspberrypiservice.Coremgr.MainWorker.Commands.{run_events}
use raspberrypiservice.Coremgr.CmSenderFactory.{
  make_msg_to_hardware, make_msg_to_record, make_msg_noti_to_hardware, make_msg, make_msg_noti,
}

abbrev has_signal : DbusCommand → Bool
has_signal DbusCommand.initialize_bluetooth = true
has_signal DbusCommand.start_scan_btdevice = true
has_signal DbusCommand.stop_scan_btdevice = true
has_signal DbusCommand.bluetooth_power_on = true
has_signal DbusCommand.bluetooth_power_off = true
has_signal DbusCommand.hangup_call = true
has_signal DbusCommand.answer_call = true
has_signal DbusCommand.start_record = true
has_signal DbusCommand.stop_record = true
has_signal DbusCommand.cancel_record = true
has_signal _ = false

abbrev has_signal_noti : DbusCommand → Bool
has_signal_noti DbusCommand.pair_btdevice = true
has_signal_noti DbusCommand.unpair_btdevice = true
has_signal_noti DbusCommand.connect_btdevice = true
has_signal_noti DbusCommand.disconnect_btdevice = true
has_signal_noti DbusCommand.reject_request_confirmation = true
has_signal_noti DbusCommand.accept_request_confirmation = true
has_signal_noti DbusCommand.dial_call = true
has_signal_noti _ = false

abbrev is_known : Effect → Bool
is_known (Effect.sent cmd) = has_signal cmd
is_known (Effect.sent_noti cmd ok info) = has_signal_noti cmd
is_known _ = true

abbrev AllKnown : List Effect → Type 0
AllKnown es = All (λ e. is_known e ≡ true) es

handle-AllKnown :
    (out : Outside) (id : EventTypeId) (payload : Option Payload) (c : Core)
    → AllKnown c.outbox
    → AllKnown (handle out id payload c).outbox
unfolding handle
handle-AllKnown out EventTypeId.startup payload c h = ground (arith, h)
handle-AllKnown out _ payload c h = ground (arith, h)

run_events-AllKnown :
    (es : List (Outside × Event EventTypeId)) (c : Core)
    → AllKnown c.outbox
    → AllKnown (run_events es c).outbox
unfolding process_event
run_events-AllKnown [] c h = h
run_events-AllKnown ((out, e) ∷ es) c h =
    run_events-AllKnown es (process_event out (some e) c)
      (handle-AllKnown out e.event_type_id e.payload c h)

module _ (l : Libdbus) where
  -- The factory makes a signal to one of the managers of what is sent, as far as libdbus can.
  abbrev IsMade : Effect → Type 0
  IsMade (Effect.sent cmd) =
      (make_msg l cmd ≡ make_msg_to_hardware l cmd) ⊎ (make_msg l cmd ≡ make_msg_to_record l cmd)
  IsMade (Effect.sent_noti cmd ok info) =
      make_msg_noti l cmd ok info ≡ make_msg_noti_to_hardware l cmd ok info
  IsMade _ = Unit

  abbrev pub AllMade : List Effect → Type 0
  AllMade es = All IsMade es

  sent-IsMade : (cmd : DbusCommand) → has_signal cmd ≡ true → IsMade (Effect.sent cmd)
  unfolding make_msg
  sent-IsMade DbusCommand.start_record h = inr refl
  sent-IsMade DbusCommand.stop_record h = inr refl
  sent-IsMade DbusCommand.cancel_record h = inr refl
  sent-IsMade DbusCommand.initialize_bluetooth h = inl refl
  sent-IsMade DbusCommand.start_scan_btdevice h = inl refl
  sent-IsMade DbusCommand.stop_scan_btdevice h = inl refl
  sent-IsMade DbusCommand.bluetooth_power_on h = inl refl
  sent-IsMade DbusCommand.bluetooth_power_off h = inl refl
  sent-IsMade DbusCommand.hangup_call h = inl refl
  sent-IsMade DbusCommand.answer_call h = inl refl
  sent-IsMade _ h = cc (h)

  sent_noti-IsMade :
      (cmd : DbusCommand) (ok : Bool) (info : DbusDataInfo)
      → has_signal_noti cmd ≡ true
      → IsMade (Effect.sent_noti cmd ok info)
  unfolding make_msg_noti
  sent_noti-IsMade DbusCommand.pair_btdevice ok info h = refl
  sent_noti-IsMade DbusCommand.unpair_btdevice ok info h = refl
  sent_noti-IsMade DbusCommand.connect_btdevice ok info h = refl
  sent_noti-IsMade DbusCommand.disconnect_btdevice ok info h = refl
  sent_noti-IsMade DbusCommand.reject_request_confirmation ok info h = refl
  sent_noti-IsMade DbusCommand.accept_request_confirmation ok info h = refl
  sent_noti-IsMade DbusCommand.dial_call ok info h = refl
  sent_noti-IsMade _ ok info h = cc (h)

  AllKnown-AllMade : (es : List Effect) → AllKnown es → AllMade es
  AllKnown-AllMade [] h = tt
  AllKnown-AllMade (Effect.sent cmd ∷ es) h = (sent-IsMade cmd h.0, AllKnown-AllMade es h.1)
  AllKnown-AllMade (Effect.sent_noti cmd ok info ∷ es) h =
      (sent_noti-IsMade cmd ok info h.0, AllKnown-AllMade es h.1)
  AllKnown-AllMade (Effect.broadcasts msg ∷ es) h = (tt, AllKnown-AllMade es h.1)
  AllKnown-AllMade (Effect.removed_file path ∷ es) h = (tt, AllKnown-AllMade es h.1)

  -- Whatever events the main thread handles, from an outbox that is empty, the factory drops none of
  -- the commands that it sends: it makes a signal to the hardware manager or to the record manager
  -- of each, as far as libdbus can.
  pub run_events-AllMade :
      (es : List (Outside × Event EventTypeId)) (c : Core)
      → c.outbox ≡ []
      → AllMade (run_events es c).outbox
  run_events-AllMade es c h =
      AllKnown-AllMade (run_events es c).outbox
        (run_events-AllKnown es c (subst AllKnown (sym h) tt))
