-- ===== src/Coremgr/MainWorker/Commands.antt =====
-- The commands to the other managers against the states that the clients see.
use raspberrypiservice.Prelude.{
  ℕ, ◌+◌, ◌≡◌, Bool, true, false, List, [], ◌∷◌, Option, none, some, String, All, arith,
}
use raspberrypiservice.Common.Define.{DbusCommand}
use raspberrypiservice.Common.Event.{Payload, Event}
use raspberrypiservice.Coremgr.EventTypeId.{EventTypeId}
use raspberrypiservice.Coremgr.StateView.{
  RecordState, ScanningBtDeviceState, BluetoothPowerState, CallState,
}
use raspberrypiservice.Coremgr.Core.{Core, Effect}
use raspberrypiservice.Coremgr.HardwareHandler.{call_state_of}
use raspberrypiservice.Coremgr.MainWorker.{Outside, handle, process_event}

-- How many commands of each kind an effect sends.
abbrev pub record_command : Effect → ℕ
record_command (Effect.sent DbusCommand.start_record) = 1
record_command (Effect.sent DbusCommand.stop_record) = 1
record_command (Effect.sent DbusCommand.cancel_record) = 1
record_command _ = 0

abbrev pub scan_command : Effect → ℕ
scan_command (Effect.sent DbusCommand.start_scan_btdevice) = 1
scan_command (Effect.sent DbusCommand.stop_scan_btdevice) = 1
scan_command _ = 0

abbrev pub power_command : Effect → ℕ
power_command (Effect.sent DbusCommand.bluetooth_power_on) = 1
power_command (Effect.sent DbusCommand.bluetooth_power_off) = 1
power_command _ = 0

abbrev pub call_command : Effect → ℕ
call_command (Effect.sent_noti DbusCommand.dial_call _ _) = 1
call_command (Effect.sent DbusCommand.hangup_call) = 1
call_command (Effect.sent DbusCommand.answer_call) = 1
call_command _ = 0

abbrev pub count_commands : (Effect → ℕ) → List Effect → ℕ
count_commands kind [] = 0
count_commands kind (e ∷ es) = kind e + count_commands kind es

-- 1 where a state becomes `PROCESSING` that was not.
abbrev pub record_entered : RecordState → RecordState → ℕ
record_entered RecordState.processing s = 0
record_entered _ RecordState.processing = 1
record_entered _ s = 0

abbrev pub scan_entered : ScanningBtDeviceState → ScanningBtDeviceState → ℕ
scan_entered ScanningBtDeviceState.processing s = 0
scan_entered _ ScanningBtDeviceState.processing = 1
scan_entered _ s = 0

abbrev pub power_entered : BluetoothPowerState → BluetoothPowerState → ℕ
power_entered BluetoothPowerState.processing s = 0
power_entered _ BluetoothPowerState.processing = 1
power_entered _ s = 0

abbrev pub call_entered : CallState → CallState → ℕ
call_entered CallState.processing s = 0
call_entered _ CallState.processing = 1
call_entered _ s = 0

-- From `c` to `c'`, one command of each kind is sent for each entry into `PROCESSING`.
pub record Accounts (c c' : Core) : Type 0 where
  pub record_accounts :
      count_commands record_command c'.outbox
      ≡ record_entered c.record_state c'.record_state + count_commands record_command c.outbox
  pub scan_accounts :
      count_commands scan_command c'.outbox
      ≡ scan_entered c.scanning_btdevice_state c'.scanning_btdevice_state
        + count_commands scan_command c.outbox
  pub power_accounts :
      count_commands power_command c'.outbox
      ≡ power_entered c.bluetooth_power_state c'.bluetooth_power_state
        + count_commands power_command c.outbox
  pub call_accounts :
      count_commands call_command c'.outbox
      ≡ call_entered c.call_state c'.call_state + count_commands call_command c.outbox

call_entered-call_state_of :
    (s : CallState) (name : String) → call_entered s (call_state_of name) ≡ 0
unfolding call_state_of
call_entered-call_state_of s name = ground arith

handle-Accounts :
    (out : Outside) (id : EventTypeId) (payload : Option Payload) (c : Core)
    → Accounts c (handle out id payload c)
unfolding handle
handle-Accounts out EventTypeId.startup payload c = ground arith
handle-Accounts out EventTypeId.call_state_changed_noti (some (Payload.call name phone state)) c =
    ground (arith, call_entered-call_state_of c.call_state state)
handle-Accounts out _ payload c = ground arith

-- Every event sends a recording, scanning, power or call command exactly if it takes the state of
-- that kind into `PROCESSING` from another state, and then sends one.
pub process_event-Accounts :
    (out : Outside) (e : Option (Event EventTypeId)) (c : Core) → Accounts c (process_event out e c)
unfolding process_event
process_event-Accounts out none c = ground arith
process_event-Accounts out (some e) c = handle-Accounts out e.event_type_id e.payload c

-- The events that clients ask for.
abbrev pub is_request : EventTypeId → Bool
is_request EventTypeId.start_scan_btdevice = true
is_request EventTypeId.stop_scan_btdevice = true
is_request EventTypeId.bluetooth_power_on = true
is_request EventTypeId.bluetooth_power_off = true
is_request EventTypeId.pair_btdevice = true
is_request EventTypeId.unpair_btdevice = true
is_request EventTypeId.connect_btdevice = true
is_request EventTypeId.disconnect_btdevice = true
is_request EventTypeId.accept_request_confirmation = true
is_request EventTypeId.reject_request_confirmation = true
is_request EventTypeId.dial_call = true
is_request EventTypeId.hangup_call = true
is_request EventTypeId.answer_call = true
is_request EventTypeId.start_record = true
is_request EventTypeId.stop_record = true
is_request EventTypeId.cancel_record = true
is_request EventTypeId.remove_record = true
is_request EventTypeId.get_all_record = true
is_request _ = false

-- 1 while the answer to a command is awaited.
abbrev pub record_busy : Core → ℕ
record_busy c = record_entered RecordState.stopped c.record_state

abbrev pub scan_busy : Core → ℕ
scan_busy c = scan_entered ScanningBtDeviceState.idle c.scanning_btdevice_state

abbrev pub power_busy : Core → ℕ
power_busy c = power_entered BluetoothPowerState.off c.bluetooth_power_state

abbrev pub call_busy : Core → ℕ
call_busy c = call_entered CallState.idle c.call_state

-- From `c` to `c'` a kind that was busy sends nothing and stays busy, and one that was not sends
-- nothing, or one command after which it is busy.
pub record OneInFlight (c c' : Core) : Type 0 where
  pub record_one :
      count_commands record_command c'.outbox + record_busy c
      ≡ count_commands record_command c.outbox + record_busy c'
  pub scan_one :
      count_commands scan_command c'.outbox + scan_busy c
      ≡ count_commands scan_command c.outbox + scan_busy c'
  pub power_one :
      count_commands power_command c'.outbox + power_busy c
      ≡ count_commands power_command c.outbox + power_busy c'
  pub call_one :
      count_commands call_command c'.outbox + call_busy c
      ≡ count_commands call_command c.outbox + call_busy c'

request-OneInFlight :
    (out : Outside) (id : EventTypeId) (payload : Option Payload) (c : Core)
    → is_request id ≡ true
    → OneInFlight c (handle out id payload c)
unfolding handle
request-OneInFlight out EventTypeId.startup payload c h = cc
request-OneInFlight out _ payload c h = ground arith

abbrev pub run_events : List (Outside × Event EventTypeId) → Core → Core
run_events [] c = c
run_events ((out, e) ∷ es) c = run_events es (process_event out (some e) c)

OneInFlight-trans : (c d e : Core) → OneInFlight c d → OneInFlight d e → OneInFlight c e
OneInFlight-trans c d e v w = record {
  record_one = omega (arith, v.record_one, w.record_one);
  scan_one = omega (arith, v.scan_one, w.scan_one);
  power_one = omega (arith, v.power_one, w.power_one);
  call_one = omega (arith, v.call_one, w.call_one);
}

-- However many requests clients make before a notification comes back, at most one command of each
-- kind is sent, and none of a kind whose answer is awaited: over any list of requests the commands
-- sent and the busy states balance.
pub run_events-OneInFlight :
    (es : List (Outside × Event EventTypeId)) (c : Core)
    → All (λ e. is_request e.1.event_type_id ≡ true) es
    → OneInFlight c (run_events es c)
unfolding process_event
run_events-OneInFlight [] c h = omega arith
run_events-OneInFlight ((out, e) ∷ es) c h =
    OneInFlight-trans c (process_event out (some e) c)
      (run_events es (process_event out (some e) c))
      (request-OneInFlight out e.event_type_id e.payload c h.0)
      (run_events-OneInFlight es (process_event out (some e) c) h.1)
