-- ===== src/Coremgr/HardwareHandler/Phonebook.antt =====
-- HardwareHandler.cpp: the phone book and the call history that a phone sends.
use raspberrypiservice.Prelude.{[], ◌∷◌, Option, if◌then◌else◌}
use raspberrypiservice.Common.Event.{Payload}
use raspberrypiservice.Coremgr.Core.{
  Core, JsonValue, update_state_and_broadcast, as_noti, as_contact, as_call_history, when_some,
}

unfoldable pub pbap_session_end_noti : Option Payload → Core → Core
pbap_session_end_noti payload = when_some (as_noti payload) λ (ok, msg) c.
    if ok
    then update_state_and_broadcast "success" msg "Call" "pbap_session_end_noti" [] c
    else update_state_and_broadcast "fail" msg "Call" "pbap_session_end_noti" [] c

unfoldable pub pbap_phonebook_pull_start_noti : Option Payload → Core → Core
pbap_phonebook_pull_start_noti payload = when_some (as_noti payload) λ (ok, msg) c.
    if ok
    then update_state_and_broadcast "success" msg "Call" "pbap_phonebook_pull_start_noti" [] c
    else c

unfoldable pub pbap_phonebook_pull_noti : Option Payload → Core → Core
pbap_phonebook_pull_noti payload = when_some (as_contact payload) λ (name, phone) c.
    update_state_and_broadcast "success" "PBAP contact received." "Call" "pbap_phonebook_pull_noti"
      (("contact_name", JsonValue.text name) ∷ ("contact_number", JsonValue.text phone) ∷ []) c

unfoldable pub pbap_phonebook_pull_end_noti : Option Payload → Core → Core
pbap_phonebook_pull_end_noti payload = when_some (as_noti payload) λ (ok, msg) c.
    if ok
    then update_state_and_broadcast "success" msg "Call" "pbap_phonebook_pull_end_noti" [] c
    else c

unfoldable pub call_history_pull_start_noti : Option Payload → Core → Core
call_history_pull_start_noti payload = when_some (as_noti payload) λ (ok, msg) c.
    if ok
    then update_state_and_broadcast "success" msg "Call" "call_history_pull_start_noti" [] c
    else c

unfoldable pub call_history_pull_noti : Option Payload → Core → Core
call_history_pull_noti payload = when_some (as_call_history payload) λ (name, phone, type, time) c.
    update_state_and_broadcast "success" "Call history entry received." "Call"
      "call_history_pull_noti"
      (("call_history_name", JsonValue.text name)
        ∷ ("call_history_number", JsonValue.text phone)
        ∷ ("call_history_type", JsonValue.text type)
        ∷ ("call_history_datetime", JsonValue.text time)
        ∷ [])
      c

unfoldable pub call_history_pull_end_noti : Option Payload → Core → Core
call_history_pull_end_noti payload = when_some (as_noti payload) λ (ok, msg) c.
    if ok
    then update_state_and_broadcast "success" msg "Call" "call_history_pull_end_noti" [] c
    else c
