-- ===== src/Coremgr/HardwareHandler/Confirmation/Stale.antt =====
-- Two ways in which `timerIdMap_` and the timers part: a second request of one address, and a
-- request that was not answered in time.
use raspberrypiservice.Prelude.{
  ℕ, suc, ◌+◌, ◌-◌, ◌≤◌, ◌<◌, ◌≡◌, ◌≢◌, refl, ◌∙◌, ap, subst, String, Option, none, some, length,
  eq_iff, false, str_eq, Bool, arith,
}
use raspberrypiservice.Common.Event.{Payload, Event}
use raspberrypiservice.Coremgr.EventTypeId.{EventTypeId}
use raspberrypiservice.Coremgr.Timer.{int32_max, excute_if_expired_exist_and_update_timer_elements}
use raspberrypiservice.Common.EventQueue.{EventQueue}
use raspberrypiservice.Coremgr.Timer.Expiry.{excute_expired}
use raspberrypiservice.Coremgr.Timer.Table.{find, contains}
use raspberrypiservice.Coremgr.Timer.Invariant.{
  HasRoom, stop_timer_lem, start_timer-reuses, excute-IsWellFormed,
}
use raspberrypiservice.Coremgr.Core.{Core}
use raspberrypiservice.Coremgr.HardwareHandler.Confirmation.{
  find_id, set_id, handle_bt_device_request_confirmation_timeout,
  bt_device_request_confirmation_noti, timeout_request_confirmation_ms, timeout_event,
}
use raspberrypiservice.Coremgr.HardwareHandler.Confirmation.Ids.{
  find_id-set_id_self, find_id-set_id, find_id-erase_id_ne,
}
use raspberrypiservice.Coremgr.HardwareHandler.Confirmation.Answers.{
  request_timer, Requested, IsRunning, if_other, request, request-Requested, answer, answer_lem,
}

Requested-IsRunning :
    {now : ℕ} {address : String} {c c' : Core} {id : ℕ}
    → Requested now address c c' id
    → IsRunning c'
Requested-IsRunning r = record { timer_well_formed = r.well_formed; has_queue = r.queue_set }

none-ne-some {ℓ} : {A : Type ℓ} {a : A} {o : Option A} → o ≡ none → o ≡ some a → ⊥
none-ne-some p q = cc

-- With well-formed timers that have a queue, and room for two, a device that asks twice before it is
-- answered leaves the first timer running: after the answer the table still has the timer of the
-- first request, which rejects the device when it expires.
pub answer-request_twice :
    (now later : ℕ) (address first second : String) (accepts : Bool) (c : Core)
    → IsRunning c
    → suc (length c.timer.timer_table_map) < int32_max - 1
    → let c' =
        answer accepts address (request later address second (request now address first c)) in
      (id : ℕ) × (find id c'.timer.timer_table_map ≡ some (request_timer now address id))
answer-request_twice now later address first second accepts c run room =
    let c1 = request now address first c in
    let c2 = request later address second c1 in
    let (id, r) = request-Requested now address first c run (omega arith) in
    let (id', r') =
      request-Requested later address second c1 (Requested-IsRunning r) (omega (arith, r.longer)) in
    let known : find_id address c2.timer_id_map ≡ some id' =
      rw (r'.ids) (find_id-set_id_self address id' c1.timer_id_map) in
    let (stopped, _) = answer_lem accepts address c2 id' known in
    let (_, _, kept, _, _) = stop_timer_lem id' c2.timer r'.well_formed in
    let other : id ≢ id' = λ same. none-ne-some r'.fresh (
      subst (λ k. find k c1.timer.timer_table_map ≡ some (request_timer now address id)) same
        r.found) in
    (id, rw stopped (if_other (kept id) other ∙ r'.others id other ∙ r.found))

-- The timer thread's round at `now`, on the timer of the core.
abbrev pub expire : ℕ → EventQueue (Event EventTypeId) → Core → Core
expire now q c = record c {
  timer = (excute_if_expired_exist_and_update_timer_elements now c.timer q).0;
}

abbrev pub time_out : String → Core → Core
time_out address =
    handle_bt_device_request_confirmation_timeout (some (Payload.bluetooth_device_address address))

-- The state after the request of `first` was not answered, its timer expired and the timeout was
-- handled.
abbrev pub unanswered :
    (now later : ℕ) (first passkey : String) → EventQueue (Event EventTypeId) → Core → Core
unanswered now later first passkey q c =
    time_out first (expire later q (request now first passkey c))

unanswered-kept :
    (now later : ℕ) (first passkey : String) (q : EventQueue (Event EventTypeId)) (c : Core)
    → let c' = unanswered now later first passkey q c in
      let t = request now first passkey c in
      (c'.timer ≡ (excute_if_expired_exist_and_update_timer_elements later t.timer q).0)
      × (c'.timer_id_map ≡ t.timer_id_map)
unfolding handle_bt_device_request_confirmation_timeout
unanswered-kept now later first passkey q c = (refl, refl)

request-reuses :
    (now : ℕ) (address passkey : String) (c : Core)
    → IsRunning c
    → HasRoom c.timer
    → contains c.timer.next_timer_id c.timer.timer_table_map ≡ false
    → (request now address passkey c).timer_id_map
      ≡ set_id address c.timer.next_timer_id c.timer_id_map
unfolding bt_device_request_confirmation_noti
request-reuses now address passkey c run room free = ground (
  arith,
  start_timer-reuses now timeout_request_confirmation_ms (some (timeout_event address)) c.timer
      run.timer_well_formed run.has_queue room free,
)

str_eq_sym : (a b : String) → str_eq a b ≡ false → str_eq b a ≡ false
str_eq_sym a b h = ground (arith, eq_iff a b, eq_iff b a)

-- What is left after an unanswered request: the map still names its id, the table does not have
-- it, and the next search begins there.
record Left (first : String) (c : Core) (id : ℕ) : Type 0 where
  running : IsRunning c
  room : HasRoom c.timer
  next : c.timer.next_timer_id ≡ id
  free : contains id c.timer.timer_table_map ≡ false
  named : find_id first c.timer_id_map ≡ some id

unanswered-Left :
    (now later : ℕ) (first passkey : String) (q : EventQueue (Event EventTypeId)) (c : Core)
    → IsRunning c
    → suc (length c.timer.timer_table_map) < int32_max - 1
    → now + timeout_request_confirmation_ms ≤ later
    → (id : ℕ) × Left first (unanswered now later first passkey q c) id
unanswered-Left now later first passkey q c run room late =
    let c1 = request now first passkey c in
    let (id, r) = request-Requested now first passkey c run (omega arith) in
    let (timer, map) = unanswered-kept now later first passkey q c in
    let (gone, shorter, next, queue) =
      excute_expired later c1.timer q id _ r.well_formed r.found late in
    (
      id,
      record {
        running = record {
          timer_well_formed = rw timer (excute-IsWellFormed later c1.timer q r.well_formed);
          has_queue = rw timer (queue ∙ r.queue_set);
        };
        room = rw timer (omega (arith, shorter, r.longer));
        next = rw timer (next ∙ r.next_id);
        free = rw timer gone;
        named = rw map (rw (r.ids) (find_id-set_id_self first id c.timer_id_map));
      },
    )

stale-Left :
    (again : ℕ) (first second passkey : String) (accepts : Bool) (c : Core) (id : ℕ)
    → Left first c id
    → str_eq second first ≡ false
    → let c3 = request again second passkey c in
      let c4 = answer accepts first c3 in
      (find id c3.timer.timer_table_map ≡ some (request_timer again second id))
      × (find_id second c4.timer_id_map ≡ some id)
      × (contains id c4.timer.timer_table_map ≡ false)
stale-Left again first second passkey accepts c id l other =
    let m = c.timer_id_map in
    let c3 = request again second passkey c in
    let (k, r) = request-Requested again second passkey c l.running l.room in
    let reused : c3.timer_id_map ≡ set_id second c.timer.next_timer_id m =
      request-reuses again second passkey c l.running l.room (rw (l.next) (l.free)) in
    let same : k ≡ id = cc (
      find_id-set_id_self second k m,
      find_id-set_id_self second c.timer.next_timer_id m,
      reused,
      r.ids,
      l.next,
    ) in
    let known : find_id first c3.timer_id_map ≡ some id =
      rw (r.ids) (find_id-set_id second first k m ∙ rw other (l.named)) in
    let (stopped, forgot) = answer_lem accepts first c3 id known in
    let (_, gone, _, _, _) = stop_timer_lem id c3.timer r.well_formed in
    (
      subst (λ i. find i c3.timer.timer_table_map ≡ some (request_timer again second i)) same
          r.found,
      rw forgot (
          find_id-erase_id_ne first second c3.timer_id_map (str_eq_sym second first other)
          ∙ rw (r.ids) (find_id-set_id_self second k m)
          ∙ ap some same),
      rw stopped gone,
    )

-- With well-formed timers that have a queue, and room for two, a request that timed out without an
-- answer leaves its id in the map, and the request of another device that follows is given the same
-- id: a late answer to the first device then stops the timer of the second, which the map still names,
-- so that its request stays open with no timer to reject it.
pub answer-unanswered :
    (now later again : ℕ) (first second passkey passkey' : String) (accepts : Bool)
    (q : EventQueue (Event EventTypeId)) (c : Core)
    → IsRunning c
    → suc (length c.timer.timer_table_map) < int32_max - 1
    → now + timeout_request_confirmation_ms ≤ later
    → str_eq second first ≡ false
    → let c3 = request again second passkey' (unanswered now later first passkey q c) in
      let c4 = answer accepts first c3 in
      (id : ℕ) × (find id c3.timer.timer_table_map ≡ some (request_timer again second id))
      × (find_id second c4.timer_id_map ≡ some id)
      × (contains id c4.timer.timer_table_map ≡ false)
answer-unanswered now later again first second passkey passkey' accepts q c run room late other =
    let (id, left) = unanswered-Left now later first passkey q c run room late in
    let (started, named, gone) =
      stale-Left again first second passkey' accepts (unanswered now later first passkey q c) id
        left other in
    (id, started, named, gone)
