-- ===== src/Coremgr/WebSocketSession.antt =====
-- coremgr/src/WS/WebSocketServer.cpp, the class WebSocketSession: the queue of messages to one
-- client. A step is a `send` by any thread, the run of a `doWrite` that was posted to the strand, or
-- the completion of a write that the network reports. Any number of posted `doWrite`s and of writes
-- in flight can be there: that there is one at most is what `writing_` is for.
pub mod Writes
use raspberrypiservice.Prelude.{
  ℕ, zero, suc, Bool, true, false, String, List, [], ◌∷◌, ◌++◌, Option, none, some, if◌then◌else◌,
}

-- `posted` counts the `doWrite`s that were posted and have not run; `in_flight` lists what the writes
-- that were begun and have not ended write, the oldest first, where `none` is a `front()` of an empty
-- queue; `completed` lists the messages whose write has ended, the oldest first; `left` says whether
-- the session has left the server.
pub record Session : Type 0 where
  pub message_queue : List String
  pub writing : Bool
  pub posted : ℕ
  pub in_flight : List (Option String)
  pub completed : List String
  pub left : Bool

abbrev pub init_session : Session
init_session = record {
  message_queue = [];
  writing = false;
  posted = 0;
  in_flight = [];
  completed = [];
  left = false;
}

-- `asio::post` of `doWrite`.
abbrev post : Session → Session
post s = record s { posted = suc s.posted }

unfoldable pub send : String → Session → Session
send message s =
    let s' = record s { message_queue = s.message_queue ++ message ∷ [] } in
    if s.writing then s' else post (record s' { writing = true })

abbrev front : List String → Option String
front [] = none
front (m ∷ ms) = some m

-- The run of a posted `doWrite`, if there is one.
abbrev do_write : (posted : ℕ) → Session → Session
do_write zero s = s
do_write (suc n) s = record s { posted = n; in_flight = s.in_flight ++ front s.message_queue ∷ [] }

abbrev pop : List String → List String
pop [] = []
pop (m ∷ ms) = ms

-- `if (!message_queue_.empty())` on the queue that is left.
abbrev write_next : List String → Session → Session
write_next [] s = record s { writing = false }
write_next (m ∷ ms) s = post s

abbrev written : Option String → List String → List String
written none done = done
written (some m) done = done ++ m ∷ []

-- The handler of `async_write`, of the oldest write in flight; `ec` says whether the write failed.
abbrev on_written : Bool → List (Option String) → Session → Session
on_written ec [] s = s
on_written ec (m ∷ ms) s =
    let rest = pop s.message_queue in
    let s' = record s { message_queue = rest; in_flight = ms; completed = written m s.completed } in
    if ec then record s' { left = true; writing = false } else write_next rest s'

pub data Step : Type 0 where
  sends : String → Step
  runs : Step
  ends : (ec : Bool) → Step

unfoldable pub session_step : Step → Session → Session
unfolding send
session_step (sends message) s = send message s
session_step runs s = do_write s.posted s
session_step (ends ec) s = on_written ec s.in_flight s

abbrev pub run_session : List Step → Session → Session
run_session [] s = s
run_session (step ∷ steps) s = run_session steps (session_step step s)
