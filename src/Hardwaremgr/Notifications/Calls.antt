-- ===== src/Hardwaremgr/Notifications/Calls.antt =====
-- What is announced of calls.
use Prim.Native.String.{◌++◌ as str_append}
use raspberrypiservice.Prelude.{
  ◌≡◌, refl, Bool, true, false, ◌||◌, String, List, [], ◌∷◌, str_eq, if◌then◌else◌,
}
use raspberrypiservice.Common.Define.{DbusCommand}
use raspberrypiservice.Common.DbusData.{DbusDataType, DbusDataInfo, init_info}
use raspberrypiservice.Hardwaremgr.Hardware.{Answer, Bus, Hardware}
use raspberrypiservice.Hardwaremgr.OfonoDbus.Sync.{properties_of, message_info}
use raspberrypiservice.Hardwaremgr.OfonoDbus.Calls.{
  name_call, voice_call, get_voice_call_properties, outcome, dial_call, incoming_call, answer_path,
  answer_first, answer_call, hangup_call,
}
use raspberrypiservice.Hardwaremgr.Notifications.Parsed.{
  HasNumbers, init_info-HasNumbers, set_info-HasNumbers, if-HasNumbers,
}
use raspberrypiservice.Hardwaremgr.Notifications.Fit.{
  is_announced, Fit, if-Fit, notify-Fit, message-HasNumbers,
}
use raspberrypiservice.Hardwaremgr.Notifications.Bluez.{ask-Fit}
use raspberrypiservice.Hardwaremgr.Notifications.Ofono.{entry_properties-HasNumbers}

-- The data of a call, and the state that its query leaves.
pub record FitCall (x : DbusDataInfo × Hardware) : Type 0 where
  pub fit_info : HasNumbers x.0
  pub fit_rest : Fit x.1

name_call-HasNumbers :
    (info : DbusDataInfo) (h : Hardware) → HasNumbers info → HasNumbers (name_call info h)
name_call-HasNumbers info h n = search (if-HasNumbers, set_info-HasNumbers)

voice_call-FitCall : (x : Answer × Hardware) → Fit x.1 → FitCall (voice_call x)
voice_call-FitCall (Answer.replied r, h) f =
    let entries =
      entry_properties-HasNumbers "LineIdentification" DbusDataType.call_number "State"
        DbusDataType.call_state (properties_of r) init_info refl refl init_info-HasNumbers in
    record { fit_info = name_call-HasNumbers _ h entries; fit_rest = f }
voice_call-FitCall (_, h) f = record { fit_info = init_info-HasNumbers; fit_rest = f }

pub get_voice_call_properties-FitCall :
    (path : String) (bus : Bus) (h : Hardware)
    → Fit h
    → FitCall (get_voice_call_properties path bus h)
unfolding get_voice_call_properties
get_voice_call_properties-FitCall path bus h f = search (voice_call-FitCall, ask-Fit)

outcome-Fit :
    (cmd : DbusCommand) (unmade error done : String) (x : Answer × Hardware)
    → is_announced cmd ≡ true
    → Fit x.1
    → Fit (outcome cmd unmade error done x)
outcome-Fit cmd unmade error done (Answer.no_message, h) a f =
    notify-Fit cmd false (message_info unmade) h a (message-HasNumbers unmade) f
outcome-Fit cmd unmade error done (Answer.failed e, h) a f =
    notify-Fit cmd false (message_info (str_append error e)) h a
      (message-HasNumbers (str_append error e)) f
outcome-Fit cmd unmade error done (Answer.no_reply, h) a f =
    notify-Fit cmd true (message_info done) h a (message-HasNumbers done) f
outcome-Fit cmd unmade error done (Answer.replied r, h) a f =
    notify-Fit cmd true (message_info done) h a (message-HasNumbers done) f

ruleset outcomes = (if-Fit, notify-Fit, message-HasNumbers, outcome-Fit, ask-Fit)

pub dial_call-Fit :
    (number : String) (bus : Bus) (h : Hardware) → Fit h → Fit (dial_call number bus h)
unfolding dial_call
dial_call-Fit number bus h f = search outcomes

pub hangup_call-Fit : (bus : Bus) (h : Hardware) → Fit h → Fit (hangup_call bus h)
unfolding hangup_call
hangup_call-Fit bus h f = search outcomes

if-Fit_with_path :
    (b : Bool) (x y : String × Hardware) → Fit x.1 → Fit y.1 → Fit (if b then x else y).1
if-Fit_with_path true x y f g = f
if-Fit_with_path false x y f g = g

incoming_call-Fit :
    (paths : List String) (bus : Bus) (h : Hardware) → Fit h → Fit (incoming_call paths bus h).1
unfolding incoming_call
incoming_call-Fit [] bus h f = f
incoming_call-Fit (path ∷ paths) bus h f =
    let query = get_voice_call_properties path bus h in
    let found = get_voice_call_properties-FitCall path bus h f in
    let state = query.0 DbusDataType.call_state in
    if-Fit_with_path (str_eq state "incoming" || str_eq state "waiting") (path, query.1)
      (incoming_call paths bus query.1) found.fit_rest
      (incoming_call-Fit paths bus query.1 found.fit_rest)

answer_path-Fit : (bus : Bus) (x : String × Hardware) → Fit x.1 → Fit (answer_path bus x)
answer_path-Fit bus (path, h) f = search outcomes

answer_first-Fit :
    (paths : List String) (bus : Bus) (h : Hardware) → Fit h → Fit (answer_first paths bus h)
unfolding incoming_call
answer_first-Fit [] bus h f = search outcomes
answer_first-Fit (path ∷ paths) bus h f =
    answer_path-Fit bus (incoming_call (path ∷ paths) bus h)
      (incoming_call-Fit (path ∷ paths) bus h f)

pub answer_call-Fit : (bus : Bus) (h : Hardware) → Fit h → Fit (answer_call bus h)
unfolding answer_call
answer_call-Fit bus h f = answer_first-Fit h.active_call_paths bus h f
