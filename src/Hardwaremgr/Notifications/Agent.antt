-- ===== src/Hardwaremgr/Notifications/Agent.antt =====
-- What is announced when BlueZ calls the agent.
use raspberrypiservice.Prelude.{ℕ, refl, Bool, true, false, String, List, ◌∷◌, Option, none, some}
use raspberrypiservice.Common.Define.{DbusCommand}
use raspberrypiservice.Common.Text.{is_empty}
use raspberrypiservice.Hardwaremgr.Hardware.{Hardware}
use raspberrypiservice.Hardwaremgr.Message.{Argument, Message}
use raspberrypiservice.Hardwaremgr.OfonoDbus.Containers.{store, find}
use raspberrypiservice.Hardwaremgr.BluetoothAgent.{
  send_simple_reply, device_address, confirmation_info, request_confirmation,
  handle_request_confirmation, handle_request_authorization, handle_request_pin_code,
  handle_display_passkey, handle_release, handle_message, answer_pending, confirm_request,
}
use raspberrypiservice.Hardwaremgr.Notifications.Parsed.{
  HasNumbers, init_info-HasNumbers, set_info-HasNumbers,
}
use raspberrypiservice.Hardwaremgr.Notifications.Fit.{
  Fit, if-Fit, notify-Fit, with_message-HasNumbers,
}

send_simple_reply-Fit :
    (serial : ℕ) (accept : Bool) (h : Hardware) → Fit h → Fit (send_simple_reply serial accept h)
unfolding send_simple_reply
send_simple_reply-Fit serial accept h f = record { all_fit = f.all_fit }

request_confirmation-Fit :
    (serial : ℕ) (address : String) (passkey : ℕ) (h : Hardware)
    → Fit h
    → Fit (request_confirmation serial address passkey h)
unfolding request_confirmation
request_confirmation-Fit serial address passkey h f =
    let kept : Fit
        (record h { pending_confirmations = store address serial h.pending_confirmations }) =
      record { all_fit = f.all_fit } in
    let numbers : HasNumbers (confirmation_info address passkey) =
      search (with_message-HasNumbers, set_info-HasNumbers, init_info-HasNumbers) in
    if-Fit (is_empty address) _ _ (send_simple_reply-Fit serial false h f) (
      notify-Fit DbusCommand.btdevice_request_confirmation_noti true
        (confirmation_info address passkey) _ refl numbers kept)

handle_request_confirmation-Fit :
    (serial : ℕ) (args : List Argument) (h : Hardware)
    → Fit h
    → Fit (handle_request_confirmation serial args h)
unfolding handle_request_confirmation
handle_request_confirmation-Fit serial (Argument.object_path path ∷ Argument.uint32 passkey ∷ args)
      h f =
    request_confirmation-Fit serial (device_address path) passkey h f
handle_request_confirmation-Fit serial _ h f = send_simple_reply-Fit serial false h f

handle_request_authorization-Fit :
    (serial : ℕ) (args : List Argument) (h : Hardware)
    → Fit h
    → Fit (handle_request_authorization serial args h)
unfolding handle_request_authorization
handle_request_authorization-Fit serial (Argument.object_path path ∷ args) h f =
    send_simple_reply-Fit serial true h f
handle_request_authorization-Fit serial _ h f = send_simple_reply-Fit serial false h f

handle_release-Fit : (serial : ℕ) (h : Hardware) → Fit h → Fit (handle_release serial h)
unfolding handle_release send_simple_reply
handle_release-Fit serial h f = record { all_fit = f.all_fit }

pub handle_message-Fit : (m : Message) (h : Hardware) → Fit h → Fit (handle_message m h)
unfolding handle_message handle_request_pin_code handle_display_passkey
handle_message-Fit m h f =
    search
      (
        if-Fit, handle_request_confirmation-Fit, handle_request_authorization-Fit,
        handle_release-Fit, send_simple_reply-Fit,
      )
      depth 10

answer_pending-Fit :
    (serial : Option ℕ) (address : String) (confirmed : Bool) (h : Hardware)
    → Fit h
    → Fit (answer_pending serial address confirmed h)
answer_pending-Fit none address confirmed h f = f
answer_pending-Fit (some serial) address confirmed h f = record { all_fit = f.all_fit }

pub confirm_request-Fit :
    (address : String) (confirmed : Bool) (h : Hardware)
    → Fit h
    → Fit (confirm_request address confirmed h)
unfolding confirm_request
confirm_request-Fit address confirmed h f =
    answer_pending-Fit (find address h.pending_confirmations) address confirmed h f
