-- ===== src/Coremgr/WebSocket/Requests.antt =====
-- The events that client messages become, against what the main thread expects.
use raspberrypiservice.Prelude.{
  ◌≡◌, refl, sym, inl, inr, Bool-cases, true, append-nil, String, [], ◌++◌, Option, none, some,
  arith,
}
use raspberrypiservice.Common.Event.{Event}
use raspberrypiservice.Common.EventQueue.{EventQueue, push_event}
use raspberrypiservice.Common.EventQueue.Fifo.{cons_some}
use raspberrypiservice.Coremgr.EventTypeId.{EventTypeId}
use raspberrypiservice.Coremgr.MainWorker.Payloads.{is_well_typed}
use raspberrypiservice.Coremgr.MainWorker.Commands.{is_request}
use raspberrypiservice.Coremgr.WebSocket.{
  JsonLibrary, CommandType, string_to_command, translate, translate_msg, event_of_command,
  event_of_json, handle_message_from_client,
}

-- No event, or a request of a client that its handler takes.
abbrev pub RequestIfAny : Option (Event EventTypeId) → Type 0
RequestIfAny none = Unit
RequestIfAny (some e) = (is_well_typed e ≡ true) × (is_request e.event_type_id ≡ true)

queued :
    (o : Option (Event EventTypeId)) (q : EventQueue (Event EventTypeId))
    → (push_event o q).0.event_list ≡ q.event_list ++ cons_some o []
unfolding push_event
queued none q = sym (append-nil q.event_list)
queued (some e) q = refl

module _ (lib : JsonLibrary) where
  open lib use {Json, parse, contains, at, value, as_string}

  translate-RequestIfAny : (c : CommandType) (j : Json) → RequestIfAny (translate lib c j)
  unfolding translate
  translate-RequestIfAny CommandType.start_scan_btdevice j = (refl, refl)
  translate-RequestIfAny _ j = ground arith

  command-RequestIfAny :
      (j : Json) (command : Option String) → RequestIfAny (event_of_command lib j command)
  unfolding translate_msg
  command-RequestIfAny j none = tt
  command-RequestIfAny j (some command) =
      translate-RequestIfAny (string_to_command command) (value j "data")

  json-RequestIfAny : (o : Option Json) → RequestIfAny (event_of_json lib o)
  json-RequestIfAny none = tt
  json-RequestIfAny (some j) = elim (Bool-cases (contains j "command")) [
    | inl found ↦ rw found (command-RequestIfAny j (as_string (at j "command")))
    | inr missing ↦ rw missing tt
  ]

  -- Whatever a client sends, the queue keeps its events and gets at most one more, behind them: a
  -- request whose payload is of the class that its handler takes.
  pub handle_message_from_client-RequestIfAny :
      (message : String) (q : EventQueue (Event EventTypeId))
      → (o : Option (Event EventTypeId)) × ((handle_message_from_client lib message q).event_list
          ≡ q.event_list ++ cons_some o [])
        × RequestIfAny o
  unfolding handle_message_from_client
  handle_message_from_client-RequestIfAny message q =
      let o = event_of_json lib (parse message) in
      (o, queued o q, json-RequestIfAny (parse message))
