-- ===== src/Hardwaremgr/OfonoDbus/Outcomes.antt =====
-- What is reported of the commands for calls.
use raspberrypiservice.Prelude.{
  ◌≡◌, refl, inl, inr, Bool, true, false, not, ◌&&◌, ◌||◌, String, List, [], ◌∷◌, str_eq,
  if◌then◌else◌, Bool-cases, ap, ◌∙◌, subst,
}
use raspberrypiservice.Common.Define.{DbusCommand}
use raspberrypiservice.Common.Text.{is_empty}
use raspberrypiservice.Common.DbusData.{DbusDataType, DbusDataInfo}
use raspberrypiservice.Hardwaremgr.Config.{
  ofono_service_name, ofono_voicecall_manager_interface, ofono_voicecall_interface,
}
use raspberrypiservice.Hardwaremgr.Hardware.{
  CallArg, Call, call, Answer, Bus, Noti, noti, Hardware, ask,
}
use raspberrypiservice.Hardwaremgr.OfonoDbus.Ringing.{ringing, found, found-incoming_call}
use raspberrypiservice.Hardwaremgr.OfonoDbus.Calls.{
  get_voice_call_properties, voice_call, outcome, dial_call, incoming_call, answer_path,
  answer_first, answer_call, hangup_call,
}

-- From `h` to `h'` one notification of the command is sent.
abbrev pub ReportsOnce : DbusCommand → Bool → Hardware → Hardware → Type 0
ReportsOnce cmd ok h h' = (info : DbusDataInfo) × (h'.sent ≡ noti cmd ok info ∷ h.sent)

-- Whether the call was made without an error.
abbrev pub succeeds : Answer → Bool
succeeds Answer.no_message = false
succeeds (Answer.failed e) = false
succeeds _ = true

outcome-ReportsOnce :
    (cmd : DbusCommand) (unmade error done : String) (x : Answer × Hardware)
    → ReportsOnce cmd (succeeds x.0) x.1 (outcome cmd unmade error done x)
outcome-ReportsOnce cmd unmade error done (Answer.no_message, h) = (_, refl)
outcome-ReportsOnce cmd unmade error done (Answer.failed e, h) = (_, refl)
outcome-ReportsOnce cmd unmade error done (Answer.no_reply, h) = (_, refl)
outcome-ReportsOnce cmd unmade error done (Answer.replied r, h) = (_, refl)

abbrev pub dial_message : String → Hardware → Call
dial_message number h =
    call ofono_service_name h.modem_path ofono_voicecall_manager_interface "Dial"
      (CallArg.text_arg number ∷ CallArg.text_arg "" ∷ [])

abbrev pub hangup_message : Hardware → Call
hangup_message h =
    call ofono_service_name h.modem_path ofono_voicecall_manager_interface "HangupAll" []

abbrev pub answer_message : String → Call
answer_message path = call ofono_service_name path ofono_voicecall_interface "Answer" []

dial_call-ReportsOnce :
    (number : String) (bus : Bus) (h : Hardware)
    → ReportsOnce DbusCommand.dial_call_noti
        (not (is_empty h.modem_path) && succeeds (bus h.calls (dial_message number h)))
        h
        (dial_call number bus h)
unfolding dial_call
dial_call-ReportsOnce number bus h = elim (Bool-cases (is_empty h.modem_path)) [
  | inl no_modem ↦ rw no_modem (_, refl)
  | inr modem ↦ rw modem (
      outcome-ReportsOnce DbusCommand.dial_call_noti "Failed to create Dial message."
        "Error dialing number: " "Dial command sent successfully."
        (ask bus (dial_message number h) h))
]

-- What a hangup does, with whether there is no modem: nothing, or one report of what oFono answers.
abbrev pub HangsUp : (no_modem : Bool) → Bus → Hardware → Hardware → Type 0
HangsUp true bus h h' = h' ≡ h
HangsUp false bus h h' =
    ReportsOnce DbusCommand.hangup_call_noti (succeeds (bus h.calls (hangup_message h))) h h'

hangup_call-HangsUp :
    (bus : Bus) (h : Hardware) → HangsUp (is_empty h.modem_path) bus h (hangup_call bus h)
unfolding hangup_call
hangup_call-HangsUp bus h = elim (Bool-cases (is_empty h.modem_path)) [
  | inl no_modem ↦ rw no_modem refl
  | inr modem ↦ rw modem (
      outcome-ReportsOnce DbusCommand.hangup_call_noti "Failed to create HangupAll message."
        "Error hanging up calls: " "All calls hung up successfully." (ask bus (hangup_message h) h))
]

voice_call_sent : (x : Answer × Hardware) → (voice_call x).1.sent ≡ x.1.sent
voice_call_sent (Answer.replied r, h) = refl
voice_call_sent (_, h) = refl

get_voice_call_properties_sent :
    (path : String) (bus : Bus) (h : Hardware)
    → (get_voice_call_properties path bus h).1.sent ≡ h.sent
unfolding get_voice_call_properties
get_voice_call_properties_sent path bus h = voice_call_sent (ask bus _ h)

if_sent :
    (b : Bool) (x y : String × Hardware) (sent : List Noti)
    → x.1.sent ≡ sent
    → y.1.sent ≡ sent
    → (if b then x else y).1.sent ≡ sent
if_sent true x y sent e f = e
if_sent false x y sent e f = f

-- The search for a call only asks.
incoming_call_sent :
    (paths : List String) (bus : Bus) (h : Hardware) → (incoming_call paths bus h).1.sent ≡ h.sent
unfolding incoming_call
incoming_call_sent [] bus h = refl
incoming_call_sent (path ∷ paths) bus h =
    let (props, h') = get_voice_call_properties path bus h in
    let kept = get_voice_call_properties_sent path bus h in
    let state = props DbusDataType.call_state in
    if_sent (str_eq state "incoming" || str_eq state "waiting") (path, h')
      (incoming_call paths bus h') h.sent kept (incoming_call_sent paths bus h' ∙ kept)

-- Whether there is a path to answer, and oFono then takes the answer without an error.
abbrev pub answers : Bus → String × List Call → Bool
answers bus (path, cs) = not (is_empty path) && succeeds (bus cs (answer_message path))

answer_path-ReportsOnce :
    (bus : Bus) (x : String × Hardware)
    → ReportsOnce DbusCommand.answer_call_noti (answers bus (found x)) x.1 (answer_path bus x)
answer_path-ReportsOnce bus (path, h) = elim (Bool-cases (is_empty path)) [
  | inl none_found ↦ rw none_found (_, refl)
  | inr found ↦ rw found (
      outcome-ReportsOnce DbusCommand.answer_call_noti "Failed to create Answer message."
        "Error answering call: " "Call answered successfully." (ask bus (answer_message path) h))
]

answer_first-ReportsOnce :
    (paths : List String) (bus : Bus) (h : Hardware)
    → ReportsOnce DbusCommand.answer_call_noti
        (answers bus (found (incoming_call paths bus h)))
        h
        (answer_first paths bus h)
unfolding incoming_call
answer_first-ReportsOnce [] bus h = (_, refl)
answer_first-ReportsOnce (path ∷ paths) bus h =
    let search_result = incoming_call (path ∷ paths) bus h in
    let (info, reported) = answer_path-ReportsOnce bus search_result in
    let tail = noti DbusCommand.answer_call_noti (answers bus (found search_result)) info in
    (info, reported ∙ ap (λ s. tail ∷ s) (incoming_call_sent (path ∷ paths) bus h))

answer_call-ReportsOnce :
    (bus : Bus) (h : Hardware)
    → ReportsOnce DbusCommand.answer_call_noti
        (answers bus (ringing h.active_call_paths bus h.calls))
        h
        (answer_call bus h)
unfolding answer_call
answer_call-ReportsOnce bus h =
    subst (λ x. ReportsOnce DbusCommand.answer_call_noti (answers bus x) h (answer_call bus h))
      (found-incoming_call h.active_call_paths bus h)
      (answer_first-ReportsOnce h.active_call_paths bus h)

-- A dial and an answer each send one notification of their command, and so does a hangup if there is
-- a modem; without one it leaves everything as it is. A success is reported of a dial exactly if
-- there is a modem and oFono takes the call without an error; of an answer exactly if oFono, asked
-- about the active calls in turn, tells of one that its state is "incoming" or "waiting", and takes
-- the answer to the first such call, of a path that is not empty, without an error; and of a hangup
-- exactly if oFono takes it without an error.
pub call_commands-ReportsOnce :
    (number : String) (bus : Bus) (h : Hardware)
    → ReportsOnce DbusCommand.dial_call_noti
        (not (is_empty h.modem_path) && succeeds (bus h.calls (dial_message number h)))
        h
        (dial_call number bus h)
      × ReportsOnce DbusCommand.answer_call_noti
          (answers bus (ringing h.active_call_paths bus h.calls))
          h
          (answer_call bus h)
      × HangsUp (is_empty h.modem_path) bus h (hangup_call bus h)
call_commands-ReportsOnce number bus h =
    (dial_call-ReportsOnce number bus h, answer_call-ReportsOnce bus h, hangup_call-HangsUp bus h)
