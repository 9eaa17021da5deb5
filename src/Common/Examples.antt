-- ===== src/Common/Examples.antt =====
-- The event queue on concrete inputs.
use raspberrypiservice.Prelude.{
  ◌≡◌, ◌++◌, ◌+◌, ℕ, [], ◌∷◌, List, none, some, Option, is_some, length,
}
use raspberrypiservice.Common.EventQueue.{EventQueue, push_event, pop_event, has_event, size}
use raspberrypiservice.Common.EventQueue.Fifo.{
  Call, pushes, pops, pushed, cons_some, run_calls, run_calls_fifo, has_event-pop_event,
}

abbrev calls : List (Call ℕ)
calls = pushes (some 1) ∷ pops ∷ pushes none ∷ pushes (some 2) ∷ []

abbrev queue : EventQueue ℕ
queue = record { event_list = 5 ∷ 6 ∷ [] }

run_calls_fifo_example :
    let (popped, q) = run_calls calls queue in popped ++ q.event_list ≡ (5 ∷ 6 ∷ []) ++ pushed calls
run_calls_fifo_example = run_calls_fifo calls (5 ∷ 6 ∷ [])

abbrev third : Option ℕ
third = some 3

has_event-pop_event_example :
    (has_event queue ≡ is_some (pop_event queue).0)
    × (size (pop_event queue).1 + length (cons_some (pop_event queue).0 []) ≡ size queue)
    × ((push_event third queue).1 ≡ is_some third)
    × (size (push_event third queue).0 ≡ size queue + length (cons_some third []))
has_event-pop_event_example = has_event-pop_event third queue
