-- ===== src/Coremgr/HardwareHandler/Calls.antt =====
-- HardwareHandler.cpp: the call state.
use raspberrypiservice.Prelude.{true, ◌||◌, String, List, [], ◌∷◌, Option, str_eq, if◌then◌else◌}
use raspberrypiservice.Common.Define.{DbusCommand}
use raspberrypiservice.Common.DbusData.{DbusDataType, init_info, set_info}
use raspberrypiservice.Common.Event.{Payload}
use raspberrypiservice.Coremgr.StateView.{CallState}
use raspberrypiservice.Coremgr.Core.{
  Core, JsonValue, send_message, send_message_noti, update_state_and_broadcast, as_noti, as_call,
  when_some,
}

abbrev set_call : CallState → Core → Core
set_call s c = record c { view = record c.view { call_state = s } }

abbrev dial_in : CallState → Option Payload → Core → Core
dial_in CallState.idle payload = when_some (as_call payload) λ (name, phone, state) c.
    set_call CallState.processing (
      send_message_noti DbusCommand.dial_call true
        (set_info DbusDataType.call_number phone init_info) c)
dial_in CallState.processing payload = λ c. c
dial_in CallState.incoming payload = λ c. c
dial_in CallState.outcoming payload = λ c. c
dial_in CallState.calling payload = λ c. c

unfoldable pub dial_call : Option Payload → Core → Core
dial_call payload c = dial_in c.call_state payload c

abbrev hangup_in : CallState → Core → Core
hangup_in CallState.processing c = c
hangup_in CallState.outcoming c =
    set_call CallState.processing (send_message DbusCommand.hangup_call c)
hangup_in CallState.incoming c =
    set_call CallState.processing (send_message DbusCommand.hangup_call c)
hangup_in CallState.calling c =
    set_call CallState.processing (send_message DbusCommand.hangup_call c)
hangup_in CallState.idle c = c

unfoldable pub hangup_call : Core → Core
hangup_call c = hangup_in c.call_state c

abbrev answer_in : CallState → Core → Core
answer_in CallState.processing c = c
answer_in CallState.calling c = c
answer_in CallState.idle c = c
answer_in CallState.incoming c =
    set_call CallState.processing (send_message DbusCommand.answer_call c)
answer_in CallState.outcoming c = c

unfoldable pub answer_call : Core → Core
answer_call c = answer_in c.call_state c

-- The initializer that the handlers of `CallPayload` write.
abbrev call_fields : (name phone state : String) → List (String × JsonValue)
call_fields name phone state =
    ("call_name", JsonValue.text name)
    ∷ ("call_number", JsonValue.text phone)
    ∷ ("call_state", JsonValue.text state)
    ∷ []

unfoldable pub incoming_call_noti : Option Payload → Core → Core
incoming_call_noti payload = when_some (as_call payload) λ (name, phone, state) c.
    update_state_and_broadcast "success" "Incoming call notification received." "Call"
      "incoming_call_noti" (call_fields name phone state) (set_call CallState.incoming c)

unfoldable pub outgoing_call_noti : Option Payload → Core → Core
outgoing_call_noti payload = when_some (as_call payload) λ (name, phone, state) c.
    update_state_and_broadcast "success" "Outgoing call notification received." "Call"
      "outgoing_call_noti" (call_fields name phone state) (set_call CallState.outcoming c)

-- The chain of tests on the state's name.
unfoldable pub call_state_of : String → CallState
call_state_of state =
    if str_eq state "incoming"
    then CallState.incoming
    else if str_eq state "outgoing"
    then CallState.outcoming
    else if str_eq state "active"
    then CallState.calling
    else if str_eq state "held" || str_eq state "waiting"
    then CallState.calling
    else if str_eq state "idle" || str_eq state "disconnected"
    then CallState.idle
    else CallState.idle

unfoldable pub call_state_changed_noti : Option Payload → Core → Core
call_state_changed_noti payload = when_some (as_call payload) λ (name, phone, state) c.
    update_state_and_broadcast "success" "Call state change notification received." "Call"
      "call_state_changed_noti" (call_fields name phone state) (set_call (call_state_of state) c)

unfoldable pub call_ended_noti : Option Payload → Core → Core
call_ended_noti payload = when_some (as_call payload) λ (name, phone, state) c.
    update_state_and_broadcast "success" "Call ended notification received." "Call"
      "call_ended_noti" (call_fields name phone state) (set_call CallState.idle c)

unfoldable pub dial_call_noti : Option Payload → Core → Core
dial_call_noti payload = when_some (as_noti payload) λ (ok, msg) c.
    if ok
    then update_state_and_broadcast "success" msg "Call" "dial_call_noti" []
        (set_call CallState.idle c)
    else update_state_and_broadcast "fail" msg "Call" "dial_call_noti" []
        (set_call CallState.idle c)

unfoldable pub hangup_call_noti : Option Payload → Core → Core
hangup_call_noti payload = when_some (as_noti payload) λ (ok, msg) c.
    if ok
    then update_state_and_broadcast "success" msg "Call" "hangup_call_noti" []
        (set_call CallState.idle c)
    else update_state_and_broadcast "fail" msg "Call" "hangup_call_noti" []
        (set_call CallState.idle c)

unfoldable pub answer_call_noti : Option Payload → Core → Core
answer_call_noti payload = when_some (as_noti payload) λ (ok, msg) c.
    if ok
    then update_state_and_broadcast "success" msg "Call" "answer_call_noti" []
        (set_call CallState.idle c)
    else update_state_and_broadcast "fail" msg "Call" "answer_call_noti" []
        (set_call CallState.idle c)
