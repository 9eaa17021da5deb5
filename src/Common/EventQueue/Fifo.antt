-- ===== src/Common/EventQueue/Fifo.antt =====
-- EventQueue as a first-in first-out queue, over any sequence of calls.
use raspberrypiservice.Prelude.{
  ◌+◌, ◌≡◌, refl, sym, ◌∙◌, ap, List, [], ◌∷◌, ◌++◌, Option, none, some, length, length-append,
  is_some, append-nil, append_assoc, arith,
}
use raspberrypiservice.Common.EventQueue.{EventQueue, push_event, pop_event, has_event, size}

-- A call by some thread, in the order in which the mutex is taken.
pub data Call (A : Type 0) : Type 0 where
  pushes : Option A → Call A
  pops : Call A

module _ {A : Type 0} where
  abbrev pub cons_some : Option A → List A → List A
  cons_some none es = es
  cons_some (some e) es = e ∷ es

  -- The events that the calls of a sequence are given, the null ones left out.
  abbrev pub pushed : List (Call A) → List A
  pushed [] = []
  pushed (pushes o ∷ cs) = cons_some o (pushed cs)
  pushed (pops ∷ cs) = pushed cs

  -- The events that the pops of a sequence return, and the queue at its end.
  abbrev pub run_calls : List (Call A) → EventQueue A → List A × EventQueue A
  run_calls [] q = ([], q)
  run_calls (pushes o ∷ cs) q = run_calls cs (push_event o q).0
  run_calls (pops ∷ cs) q =
      let (o, q') = pop_event q in let (popped, r) = run_calls cs q' in (cons_some o popped, r)

  -- The events that come out, followed by those still queued, are the events that were queued,
  -- followed by those pushed, in that order, whatever calls are made.
  pub run_calls_fifo :
      (cs : List (Call A)) (es : List A)
      → let (popped, q) = run_calls cs (record { event_list = es }) in
        popped ++ q.event_list ≡ es ++ pushed cs
  unfolding push_event pop_event
  run_calls_fifo [] es = sym (append-nil es)
  run_calls_fifo (pushes none ∷ cs) es = run_calls_fifo cs es
  run_calls_fifo (pushes (some e) ∷ cs) es =
      run_calls_fifo cs (es ++ e ∷ []) ∙ append_assoc es (e ∷ []) (pushed cs)
  run_calls_fifo (pops ∷ cs) [] = run_calls_fifo cs []
  run_calls_fifo (pops ∷ cs) (e ∷ es) = ap (◌∷◌ e) (run_calls_fifo cs es)

  pub event_list-push_event :
      (o : Option A) (q : EventQueue A) (rest : List A)
      → (push_event o q).0.event_list ++ rest ≡ q.event_list ++ cons_some o rest
  unfolding push_event
  event_list-push_event none q rest = refl
  event_list-push_event (some e) q rest = append_assoc q.event_list (e ∷ []) rest

  -- `has_event` tells exactly whether the next `pop_event` returns an event, `push_event` reports
  -- exactly whether it was given one, and the size counts both.
  pub has_event-pop_event :
      (o : Option A) (q : EventQueue A)
      → (has_event q ≡ is_some (pop_event q).0)
        × (size (pop_event q).1 + length (cons_some (pop_event q).0 []) ≡ size q)
        × ((push_event o q).1 ≡ is_some o)
        × (size (push_event o q).0 ≡ size q + length (cons_some o []))
  unfolding push_event pop_event has_event size
  has_event-pop_event o q = (ground arith, ground arith, ground arith, grind (arith, length-append))
