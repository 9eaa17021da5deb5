-- ===== src/Recordmgr/MainWorker/Commands.antt =====
-- Commands from the bus up to the worker.
use raspberrypiservice.Prelude.{
  subst, ℕ, zero, suc, ◌≤◌, append_assoc, append-nil, ◌≡◌, refl, sym, ◌∙◌, ap, List, [], ◌∷◌, ◌++◌,
  length, arith,
}
use raspberrypiservice.Common.Define.{DbusCommand}
use raspberrypiservice.Common.Event.{Event, plain_event}
use raspberrypiservice.Common.EventQueue.{push_event, pop_event, has_event}
use raspberrypiservice.Recordmgr.EventTypeId.{EventTypeId}
use raspberrypiservice.Recordmgr.RecordWorker.{
  Worker, start_recording, stop_recording, cancel_recording,
}
use raspberrypiservice.Recordmgr.MainWorker.{
  Manager, handle, handle_message, process_event, thread_round, receive,
}

-- What the worker is asked for a command.
abbrev pub asked : DbusCommand → Worker → Worker
asked DbusCommand.start_record w = start_recording w
asked DbusCommand.stop_record w = stop_recording w
asked DbusCommand.cancel_record w = cancel_recording w
asked _ w = w

abbrev pub ask_all : List DbusCommand → Worker → Worker
ask_all [] w = w
ask_all (c ∷ cs) w = ask_all cs (asked c w)

abbrev pub receive_all : List DbusCommand → Manager → Manager
receive_all [] m = m
receive_all (c ∷ cs) m = receive_all cs (receive c m)

abbrev pub rounds : ℕ → Manager → Manager
rounds zero m = m
rounds (suc n) m = rounds n (thread_round m)

abbrev with_queue : List (Event EventTypeId) → Worker → Worker
with_queue es w = record w { queue = record { event_list = es } }

abbrev loaded : List (Event EventTypeId) → Manager → Manager
loaded es m = record m { worker = with_queue es m.worker }

abbrev events_for : List DbusCommand → List (Event EventTypeId)
events_for [] = []
events_for (DbusCommand.start_record ∷ cs) = plain_event EventTypeId.start_record ∷ events_for cs
events_for (DbusCommand.stop_record ∷ cs) = plain_event EventTypeId.stop_record ∷ events_for cs
events_for (DbusCommand.cancel_record ∷ cs) = plain_event EventTypeId.cancel_record ∷ events_for cs
events_for (_ ∷ cs) = events_for cs

asked-with_queue :
    (c : DbusCommand) (es : List (Event EventTypeId)) (w : Worker)
    → asked c (with_queue es w) ≡ with_queue es (asked c w)
asked-with_queue DbusCommand.none_command es w = refl
asked-with_queue _ es w = ground arith

receive-loaded :
    (c : DbusCommand) (cs : List DbusCommand) (es : List (Event EventTypeId)) (m : Manager)
    → loaded ((receive c (loaded es m)).worker.queue.event_list ++ events_for cs) m
      ≡ loaded (es ++ events_for (c ∷ cs)) m
unfolding receive handle_message push_event
receive-loaded DbusCommand.none_command cs es m = refl
receive-loaded DbusCommand.start_record cs es m = ap (λ l. loaded l m) (append_assoc es _ _)
receive-loaded DbusCommand.stop_record cs es m = ap (λ l. loaded l m) (append_assoc es _ _)
receive-loaded DbusCommand.cancel_record cs es m = ap (λ l. loaded l m) (append_assoc es _ _)
receive-loaded _ cs es m = refl

receive_all-loaded :
    (cs : List DbusCommand) (es : List (Event EventTypeId)) (m : Manager)
    → receive_all cs (loaded es m) ≡ loaded (es ++ events_for cs) m
unfolding receive
receive_all-loaded [] es m = ap (λ l. loaded l m) (sym (append-nil es))
receive_all-loaded (c ∷ cs) es m =
    receive_all-loaded cs (receive c (loaded es m)).worker.queue.event_list m
    ∙ receive-loaded c cs es m

rounds-empty : (n : ℕ) (m : Manager) → rounds n (loaded [] m) ≡ loaded [] m
unfolding thread_round pop_event has_event
rounds-empty zero m = refl
rounds-empty (suc n) m = rounds-empty n m

abbrev with_worker : Worker → Manager → Manager
with_worker w m = record m { worker = w }

after :
    (c : DbusCommand) (cs : List DbusCommand) (n : ℕ) (m : Manager)
    → rounds n (with_worker (asked c (with_queue (events_for cs) m.worker)) m)
      ≡ rounds n (loaded (events_for cs) (with_worker (asked c m.worker) m))
after c cs n m = ap (λ w. rounds n (with_worker w m)) (asked-with_queue c (events_for cs) m.worker)

ask_all-with_queue :
    (cs : List DbusCommand) (es : List (Event EventTypeId)) (w : Worker)
    → ask_all cs (with_queue es w) ≡ with_queue es (ask_all cs w)
ask_all-with_queue [] es w = refl
ask_all-with_queue (c ∷ cs) es w =
    ap (ask_all cs) (asked-with_queue c es w) ∙ ask_all-with_queue cs es (asked c w)

rounds-events :
    (cs : List DbusCommand) (n : ℕ) (m : Manager)
    → length cs ≤ n
    → rounds n (loaded (events_for cs) m) ≡ loaded [] (with_worker (ask_all cs m.worker) m)
unfolding thread_round process_event handle pop_event has_event
rounds-events [] n m h = rounds-empty n m
rounds-events (c ∷ cs) zero m h = absurd (omega arith)
rounds-events (DbusCommand.none_command ∷ cs) (suc n) m h = rounds-events cs (suc n) m (omega arith)
rounds-events (DbusCommand.start_record ∷ cs) (suc n) m h =
    after DbusCommand.start_record cs n m
    ∙ rounds-events cs n (with_worker (start_recording m.worker) m) (omega arith)
rounds-events (DbusCommand.stop_record ∷ cs) (suc n) m h =
    after DbusCommand.stop_record cs n m
    ∙ rounds-events cs n (with_worker (stop_recording m.worker) m) (omega arith)
rounds-events (DbusCommand.cancel_record ∷ cs) (suc n) m h =
    after DbusCommand.cancel_record cs n m
    ∙ rounds-events cs n (with_worker (cancel_recording m.worker) m) (omega arith)
rounds-events (_ ∷ cs) (suc n) m h = rounds-events cs (suc n) m (omega arith)

-- The round trip of the commands, from a manager whose queue is empty.
abbrev CarriesOut : List DbusCommand → Manager → Type 0
CarriesOut cs m = rounds (length cs) (receive_all cs m) ≡ with_worker (ask_all cs m.worker) m

loaded-CarriesOut : (cs : List DbusCommand) (m : Manager) → CarriesOut cs (loaded [] m)
loaded-CarriesOut cs m =
    ap (rounds (length cs)) (receive_all-loaded cs [] m)
    ∙ rounds-events cs (length cs) m (omega arith)
    ∙ ap (λ w. with_worker w m) (sym (ask_all-with_queue cs [] m.worker))

-- Commands that come while the main thread is busy are carried out in their order: once it has made
-- a round for each, the worker is as if it had been asked for them directly, and nothing else has
-- changed.
pub receive_all-rounds :
    (cs : List DbusCommand) (m : Manager)
    → m.worker.queue.event_list ≡ []
    → rounds (length cs) (receive_all cs m) ≡ record m { worker = ask_all cs m.worker }
receive_all-rounds cs m e =
    subst (CarriesOut cs) (ap (λ es. loaded es m) (sym e)) (loaded-CarriesOut cs m)
