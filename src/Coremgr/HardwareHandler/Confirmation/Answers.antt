-- ===== src/Coremgr/HardwareHandler/Confirmation/Answers.antt =====
-- A request for confirmation, and the client's answer to it.
use native.Mathlib.Decide.{ℕ_discrete}
use raspberrypiservice.Prelude.{
  ℕ, suc, ◌+◌, ◌≡◌, ◌≢◌, ◌⊎◌, inl, inr, refl, sym, ◌∙◌, String, List, none, some, length, true,
  false, Bool, arith,
}
use raspberrypiservice.Common.Event.{Payload, Event}
use raspberrypiservice.Coremgr.EventTypeId.{EventTypeId}
use raspberrypiservice.Coremgr.Timer.{stop_timer}
use raspberrypiservice.Coremgr.Timer.Table.{TimerElement, find, contains, find-none}
use raspberrypiservice.Coremgr.Timer.Ids.{IsWellFormed}
use raspberrypiservice.Coremgr.Timer.Invariant.{HasRoom, start_timer_lem, stop_timer_lem}
use raspberrypiservice.Coremgr.Core.{Core}
use raspberrypiservice.Coremgr.HardwareHandler.Confirmation.{
  timeout_request_confirmation_ms, timeout_event, find_id, set_id, erase_id,
  bt_device_request_confirmation_noti, accept_bt_device_request_confirmation,
  reject_bt_device_request_confirmation,
}
use raspberrypiservice.Coremgr.HardwareHandler.Confirmation.Ids.{
  DistinctKeys, find_id-set_id_self, find_id-erase_id_self, set_id-DistinctKeys,
}

-- The timer that a request starts.
abbrev pub request_timer : ℕ → String → ℕ → TimerElement (Event EventTypeId)
request_timer now address id = record {
  timer_id = id;
  timeout_ms = timeout_request_confirmation_ms;
  expire_time = now + timeout_request_confirmation_ms;
  event = some (timeout_event address);
}

pub if_other : {P Q : Type 0} → P ⊎ Q → ¬ P → Q
if_other (inl p) n = absurd (n p)
if_other (inr q) n = q

-- From `c` to `c'` a request of the address has started the timer `id`.
pub record Requested (now : ℕ) (address : String) (c c' : Core) (id : ℕ) : Type 0 where
  pub fresh : find id c.timer.timer_table_map ≡ none
  pub found : find id c'.timer.timer_table_map ≡ some (request_timer now address id)
  pub others : (j : ℕ) → j ≢ id → find j c'.timer.timer_table_map ≡ find j c.timer.timer_table_map
  pub well_formed : IsWellFormed c'.timer
  pub longer : length c'.timer.timer_table_map ≡ suc (length c.timer.timer_table_map)
  pub next_id : c'.timer.next_timer_id ≡ id
  pub queue_set : c'.timer.event_queue_set ≡ true
  pub ids : c'.timer_id_map ≡ set_id address id c.timer_id_map

-- The timers of a manager that runs.
pub record IsRunning (c : Core) : Type 0 where
  pub timer_well_formed : IsWellFormed c.timer
  pub has_queue : c.timer.event_queue_set ≡ true

abbrev pub request : ℕ → (address passkey : String) → Core → Core
request now address passkey =
    bt_device_request_confirmation_noti now
      (some (Payload.bluetooth_device_passkey address passkey))

pub request-Requested :
    (now : ℕ) (address passkey : String) (c : Core)
    → IsRunning c
    → HasRoom c.timer
    → (id : ℕ) × Requested now address c (request now address passkey c) id
unfolding bt_device_request_confirmation_noti
request-Requested now address passkey c run room =
    let (id, t', e, fresh, found, others, wf, longer, next, queue) =
      start_timer_lem now timeout_request_confirmation_ms (some (timeout_event address)) c.timer
        run.timer_well_formed run.has_queue room in
    (
      id,
      rw e (record {
        fresh = fresh;
        found = found;
        others = λ j other. if_other (others j) other;
        well_formed = wf;
        longer = longer;
        next_id = next;
        queue_set = queue;
        ids = refl;
      }),
    )

-- The client's answer: `true` accepts.
abbrev pub answer : Bool → String → Core → Core
answer true address =
    accept_bt_device_request_confirmation (some (Payload.bluetooth_device_address address))
answer false address =
    reject_bt_device_request_confirmation (some (Payload.bluetooth_device_address address))

-- An answer stops the timer that the map names for its address, and forgets it.
pub answer_lem :
    (yes' : Bool) (address : String) (c : Core) (id : ℕ)
    → find_id address c.timer_id_map ≡ some id
    → ((answer yes' address c).timer ≡ (stop_timer id c.timer).1)
      × ((answer yes' address c).timer_id_map ≡ erase_id address c.timer_id_map)
unfolding accept_bt_device_request_confirmation reject_bt_device_request_confirmation
answer_lem true address c id e = ground arith
answer_lem false address c id e = ground arith

undone :
    {A : Type 0} (j id : ℕ) (before between after : List (TimerElement A))
    → find id before ≡ none
    → ((k : ℕ) → k ≢ id → find k between ≡ find k before)
    → contains id after ≡ false
    → ((k : ℕ) → k ≢ id → find k after ≡ find k between)
    → find j after ≡ find j before
undone j id before between after fresh others gone kept = elim (ℕ_discrete j id) [
  | yes same ↦ rw same (find-none id after gone ∙ sym fresh)
  | no other ↦ kept j other ∙ others j other
]

-- With well-formed timers that have a queue, room in the table and distinct addresses in the map, the
-- answer takes back what the request did to the timers: every key of the table has the element that
-- it had before the request, and the map names no timer for the address.
pub answer-request :
    (now : ℕ) (address passkey : String) (accepts : Bool) (c : Core)
    → IsRunning c
    → HasRoom c.timer
    → DistinctKeys c.timer_id_map
    → let c' = answer accepts address (request now address passkey c) in
      ((j : ℕ) → find j c'.timer.timer_table_map ≡ find j c.timer.timer_table_map)
      × (find_id address c'.timer_id_map ≡ none)
answer-request now address passkey accepts c run room distinct =
    let c' = request now address passkey c in
    let (id, r) = request-Requested now address passkey c run room in
    let known : find_id address c'.timer_id_map ≡ some id =
      rw (r.ids) (find_id-set_id_self address id c.timer_id_map) in
    let (stopped, forgot) = answer_lem accepts address c' id known in
    let (_, gone, kept, _, _) = stop_timer_lem id c'.timer r.well_formed in
    (
      λ j.
          rw stopped (undone j id _ _ _ r.fresh r.others gone (λ k other. if_other (kept k) other)),
      rw forgot (
          rw (r.ids) (find_id-erase_id_self address _ (set_id-DistinctKeys address id _ distinct))),
    )
