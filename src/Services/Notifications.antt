-- ===== src/Services/Notifications.antt =====
-- What the hardware manager's Bluetooth threads send, as the core manager receives it.
use raspberrypiservice.Prelude.{
  ℕ, ◌≡◌, sym, subst, ap, Bool, true, String, List, [], ◌∷◌, Option, All, is_some, arith,
}
use raspberrypiservice.Common.Define.{DbusCommand}
use raspberrypiservice.Common.DbusData.{DbusDataInfo}
use raspberrypiservice.Common.Stdlib.{stoi}
use raspberrypiservice.Common.Event.{Event}
use raspberrypiservice.Common.EventQueue.{EventQueue}
use raspberrypiservice.Common.Dbus.Libdbus.{Libdbus}
use raspberrypiservice.Coremgr.EventTypeId.{EventTypeId}
use raspberrypiservice.Coremgr.DbusReceiver.{handle_message_noti}
use raspberrypiservice.Coremgr.DbusReceiver.WellTyped.{
  HasNumbers as Parses, handle_message_noti-WellTyped,
}
use raspberrypiservice.Hardwaremgr.Hardware.{Bus, Noti, noti, Hardware}
use raspberrypiservice.Hardwaremgr.HmSenderFactory.{make_msg_noti_to_core, make_msg_noti}
use raspberrypiservice.Hardwaremgr.MainWorker.{Parts, Happening, run}
use raspberrypiservice.Hardwaremgr.Notifications.Parsed.{HasNumbers, zero_parses}
use raspberrypiservice.Hardwaremgr.Notifications.Fit.{is_announced, IsFit, Fit}
use raspberrypiservice.Hardwaremgr.Notifications.Run.{run-Fit}

module _ (l : Libdbus) (stof : String → Option ℕ) (q : EventQueue (Event EventTypeId)) where
  -- The factory makes a signal to the core manager of it, as far as libdbus can, and the core
  -- manager's receiver handles its data without an exception.
  abbrev pub IsAccepted : Noti → Type 0
  IsAccepted (noti cmd ok info) =
      (make_msg_noti l cmd ok info ≡ make_msg_noti_to_core l cmd ok info)
      × (is_some (handle_message_noti stof cmd ok info q) ≡ true)

  abbrev pub AllAccepted : List Noti → Type 0
  AllAccepted ns = All IsAccepted ns

  announced_made :
      (cmd : DbusCommand) (ok : Bool) (info : DbusDataInfo)
      → is_announced cmd ≡ true
      → make_msg_noti l cmd ok info ≡ make_msg_noti_to_core l cmd ok info
  unfolding make_msg_noti
  announced_made DbusCommand.none_command ok info h = cc (h)
  announced_made _ ok info h = ground (arith, h)

  numbers_parse :
      (info : DbusDataInfo) → is_some (stof "0.0") ≡ true → HasNumbers info → Parses stof info
  numbers_parse info zero n = record {
    temperature_parses = subst (λ s. is_some (stof s) ≡ true) (sym n.no_temperature) zero;
    rssi_parses = n.rssi_parses;
    duration_parses = subst (λ s. is_some (stoi s) ≡ true) (sym n.no_duration) zero_parses;
  }

  handled :
      (cmd : DbusCommand) (ok : Bool) (info : DbusDataInfo)
      → Parses stof info
      → is_some (handle_message_noti stof cmd ok info q) ≡ true
  handled cmd ok info p =
      let (new, q', e, rest, typed) = handle_message_noti-WellTyped stof cmd ok info q p in
      ap is_some e

  AllFit-AllAccepted :
      (ns : List Noti) → is_some (stof "0.0") ≡ true → All IsFit ns → AllAccepted ns
  AllFit-AllAccepted [] zero f = tt
  AllFit-AllAccepted (noti cmd ok info ∷ ns) zero ((a, n), f) = (
    (announced_made cmd ok info a, handled cmd ok info (numbers_parse info zero n)),
    AllFit-AllAccepted ns zero f,
  )

  -- Whatever events and messages come, in whatever order, and whatever BlueZ and oFono answer: of
  -- each notification that the hardware manager's Bluetooth threads have sent, the factory makes a
  -- signal to the core manager, as far as libdbus can, and the core manager's receiver handles its
  -- command and data without an exception, if nothing was sent before and "0.0" is read as a float.
  pub run-AllAccepted :
      (parts : Parts) (bus : Bus) (hs : List Happening) (h : Hardware)
      → h.sent ≡ []
      → is_some (stof "0.0") ≡ true
      → AllAccepted (run parts bus hs h).1.sent
  run-AllAccepted parts bus hs h none_sent zero =
      let start : Fit h = record { all_fit = subst (λ ns. All IsFit ns) (sym none_sent) tt } in
      AllFit-AllAccepted (run parts bus hs h).1.sent zero (run-Fit parts bus hs h start).all_fit
