-- ===== src/Hardwaremgr/BluetoothAgent/Answers.antt =====
-- The requests of BlueZ's agent against the replies to them.
use raspberrypiservice.Prelude.{
  ℕ, ◌+◌, ◌≤◌, ◌≡◌, refl, Bool, true, false, String, List, [], ◌∷◌, Option, none, some, ◌==◌,
  str_eq, if◌then◌else◌, Bool-cases, inl, inr, arith,
}
use raspberrypiservice.Common.Text.{is_empty}
use raspberrypiservice.Hardwaremgr.Hardware.{Hardware}
use raspberrypiservice.Hardwaremgr.Message.{Argument, Message}
use raspberrypiservice.Hardwaremgr.OfonoDbus.Containers.{store, find, remove}
use raspberrypiservice.Hardwaremgr.BluetoothAgent.{
  send_simple_reply, device_address, request_confirmation, handle_request_confirmation,
  handle_request_authorization, handle_request_pin_code, handle_display_passkey, handle_release,
  handle_message, answer_pending, confirm_request,
}

-- A message to the agent, or an answer of the user.
pub data Step : Type 0 where
  calls : Message → Step
  answers : (address : String) (confirmed : Bool) → Step

abbrev pub run_step : Step → Hardware → Hardware
run_step (calls m) h = handle_message m h
run_step (answers address confirmed) h = confirm_request address confirmed h

abbrev pub run_steps : List Step → Hardware → Hardware
run_steps [] h = h
run_steps (s ∷ ss) h = run_steps ss (run_step s h)

-- How often a request has been received, answered, and waits.
abbrev pub one_if : ℕ → ℕ → ℕ
one_if n m = if n == m then 1 else 0

abbrev pub received : ℕ → List Step → ℕ
received n [] = 0
received n (calls m ∷ ss) = one_if n m.serial + received n ss
received n (answers address confirmed ∷ ss) = received n ss

abbrev pub answered : ℕ → List (ℕ × Bool) → ℕ
answered n [] = 0
answered n ((m, accept) ∷ rs) = one_if n m + answered n rs

abbrev pub waiting : ℕ → List (String × ℕ) → ℕ
waiting n [] = 0
waiting n ((address, m) ∷ ps) = one_if n m + waiting n ps

abbrev owed : ℕ → Hardware → ℕ
owed n h = answered n h.replies + waiting n h.pending_confirmations

waiting-store :
    (n : ℕ) (k : String) (m : ℕ) (ps : List (String × ℕ))
    → waiting n (store k m ps) ≤ one_if n m + waiting n ps
unfolding store
waiting-store n k m [] = omega arith
waiting-store n k m ((l, i) ∷ ps) = elim (Bool-cases (str_eq k l)) [
  | inl same ↦ rw same (omega arith)
  | inr other ↦ rw other (omega (arith, waiting-store n k m ps))
]

waiting-remove :
    (n : ℕ) (k : String) (m : ℕ) (ps : List (String × ℕ))
    → find k ps ≡ some m
    → waiting n (remove k ps) + one_if n m ≤ waiting n ps
unfolding find remove
waiting-remove n k m [] h = cc (h)
waiting-remove n k m ((l, i) ∷ ps) h = ground (arith, h, waiting-remove n k m ps)

-- From `h` to `h'` at most the request `serial` is added to those that are answered or wait.
record Owes (n serial : ℕ) (h h' : Hardware) : Type 0 where
  owes : owed n h' ≤ one_if n serial + owed n h

if-Owes :
    (n serial : ℕ) (b : Bool) (h x y : Hardware)
    → Owes n serial h x
    → Owes n serial h y
    → Owes n serial h (if b then x else y)
if-Owes n serial true h x y f g = f
if-Owes n serial false h x y f g = g

reply-Owes :
    (n serial : ℕ) (accept : Bool) (h : Hardware)
    → Owes n serial h (send_simple_reply serial accept h)
unfolding send_simple_reply
reply-Owes n serial accept h = record { owes = omega arith }

request_confirmation-Owes :
    (n serial : ℕ) (address : String) (passkey : ℕ) (h : Hardware)
    → Owes n serial h (request_confirmation serial address passkey h)
unfolding request_confirmation
request_confirmation-Owes n serial address passkey h =
    let stored = waiting-store n address serial h.pending_confirmations in
    if-Owes n serial (is_empty address) h _ _ (reply-Owes n serial false h)
      (record { owes = omega (arith, stored) })

handle_request_confirmation-Owes :
    (n serial : ℕ) (args : List Argument) (h : Hardware)
    → Owes n serial h (handle_request_confirmation serial args h)
unfolding handle_request_confirmation
handle_request_confirmation-Owes n serial
      (Argument.object_path path ∷ Argument.uint32 passkey ∷ args) h =
    request_confirmation-Owes n serial (device_address path) passkey h
handle_request_confirmation-Owes n serial _ h = reply-Owes n serial false h

handle_request_authorization-Owes :
    (n serial : ℕ) (args : List Argument) (h : Hardware)
    → Owes n serial h (handle_request_authorization serial args h)
unfolding handle_request_authorization
handle_request_authorization-Owes n serial (Argument.object_path path ∷ args) h =
    reply-Owes n serial true h
handle_request_authorization-Owes n serial _ h = reply-Owes n serial false h

handle_release-Owes : (n serial : ℕ) (h : Hardware) → Owes n serial h (handle_release serial h)
unfolding handle_release send_simple_reply
handle_release-Owes n serial h = record { owes = omega arith }

handle_message-Owes : (n : ℕ) (m : Message) (h : Hardware) → Owes n m.serial h (handle_message m h)
unfolding handle_message handle_request_pin_code handle_display_passkey
handle_message-Owes n m h =
    search
      (
        if-Owes, handle_request_confirmation-Owes, handle_request_authorization-Owes,
        handle_release-Owes, reply-Owes,
      )
      depth 10

owed-answer_pending :
    (n : ℕ) (serial : Option ℕ) (address : String) (confirmed : Bool) (h : Hardware)
    → find address h.pending_confirmations ≡ serial
    → owed n (answer_pending serial address confirmed h) ≤ owed n h
owed-answer_pending n none address confirmed h found = omega arith
owed-answer_pending n (some serial) address confirmed h found =
    omega (arith, waiting-remove n address serial h.pending_confirmations found)

owed-confirm_request :
    (n : ℕ) (address : String) (confirmed : Bool) (h : Hardware)
    → owed n (confirm_request address confirmed h) ≤ owed n h
unfolding confirm_request
owed-confirm_request n address confirmed h =
    owed-answer_pending n (find address h.pending_confirmations) address confirmed h refl

-- Over any sequence of calls of BlueZ and answers of the user, the replies to a request and the
-- places where it waits are together at most those there were, and the times that it is received.
pub run_steps-received :
    (n : ℕ) (ss : List Step) (h : Hardware)
    → answered n (run_steps ss h).replies + waiting n (run_steps ss h).pending_confirmations
      ≤ answered n h.replies + waiting n h.pending_confirmations + received n ss
run_steps-received n [] h = omega arith
run_steps-received n (calls m ∷ ss) h =
    let step = handle_message-Owes n m h in
    omega (arith, step.owes, run_steps-received n ss (handle_message m h))
run_steps-received n (answers address confirmed ∷ ss) h = omega (
  arith,
  owed-confirm_request n address confirmed h,
  run_steps-received n ss (confirm_request address confirmed h),
)
