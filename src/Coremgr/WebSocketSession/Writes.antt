-- ===== src/Coremgr/WebSocketSession/Writes.antt =====
-- The order of the writes of a session.
use raspberrypiservice.Prelude.{
  ℕ, zero, suc, Option, some, ◌≡◌, subst, refl, sym, ◌∙◌, ap, ◌⊎◌, inl, inr, Bool, true, false,
  String, List, [], ◌∷◌, ◌++◌, append_assoc, append-nil,
}
use raspberrypiservice.Coremgr.WebSocketSession.{
  Session, Step, sends, runs, ends, send, session_step, run_session, init_session,
}

abbrev pub sent : List Step → List String
sent [] = []
sent (sends m ∷ steps) = m ∷ sent steps
sent (_ ∷ steps) = sent steps

-- How the flag, the posted `doWrite`s, the writes in flight and the queue fit together: nothing runs,
-- or one `doWrite` is posted, or one write is in flight, of the message at the front. `left` is the
-- session's.
abbrev pub Fits : (left writing : Bool) (posted : ℕ) → List (Option String) → List String → Type 0
Fits left false zero [] q = (left ≡ true) ⊎ (q ≡ [])
Fits left true (suc zero) [] (m ∷ q) = Unit
Fits left true zero (some n ∷ []) (m ∷ q) = n ≡ m
Fits left w p fs q = ⊥

pub record IsOrderly (messages : List String) (s : Session) : Type 0 where
  pub fits : Fits s.left s.writing s.posted s.in_flight s.message_queue
  pub in_order : s.completed ++ s.message_queue ≡ messages

abbrev session_of :
    (left writing : Bool) (posted : ℕ)
    → List (Option String)
    → (q completed : List String) → Session
session_of left writing posted fs q completed = record {
  message_queue = q;
  writing = writing;
  posted = posted;
  in_flight = fs;
  completed = completed;
  left = left;
}

appended :
    (done q messages : List String) (m : String)
    → done ++ q ≡ messages
    → done ++ (q ++ m ∷ []) ≡ messages ++ m ∷ []
appended done q messages m e = sym (append_assoc done q (m ∷ [])) ∙ ap (λ ms. ms ++ m ∷ []) e

same : (done q messages : List String) → done ++ q ≡ messages → done ++ q ≡ messages ++ []
same done q messages e = e ∙ sym (append-nil messages)

moved :
    (done q messages : List String) (n m : String)
    → n ≡ m
    → done ++ m ∷ q ≡ messages
    → (done ++ n ∷ []) ++ q ≡ messages ++ []
moved done q messages n m f e =
    append_assoc done (n ∷ []) q ∙ ap (λ x. done ++ x ∷ q) f ∙ same done (m ∷ q) messages e

step-IsOrderly :
    (step : Step) (left writing : Bool) (posted : ℕ) (fs : List (Option String))
    (q completed messages : List String)
    → Fits left writing posted fs q
    → completed ++ q ≡ messages
    → IsOrderly
        (messages ++ sent (step ∷ []))
        (session_step step (session_of left writing posted fs q completed))
unfolding session_step send
step-IsOrderly (sends m) left true (suc zero) [] (n ∷ q) done messages f e = record {
  fits = tt;
  in_order = appended done (n ∷ q) messages m e;
}
step-IsOrderly (sends m) left true zero (some n' ∷ []) (n ∷ q) done messages f e = record {
  fits = f;
  in_order = appended done (n ∷ q) messages m e;
}
step-IsOrderly (sends m) left false zero [] [] done messages f e = record {
  fits = tt;
  in_order = appended done [] messages m e;
}
step-IsOrderly (sends m) left false zero [] (n ∷ q) done messages f e = record {
  fits = tt;
  in_order = appended done (n ∷ q) messages m e;
}
step-IsOrderly runs left true (suc zero) [] (n ∷ q) done messages f e = record {
  fits = refl;
  in_order = same done (n ∷ q) messages e;
}
step-IsOrderly runs left true zero (some n' ∷ []) (n ∷ q) done messages f e = record {
  fits = f;
  in_order = same done (n ∷ q) messages e;
}
step-IsOrderly runs left false zero [] q done messages f e = record {
  fits = f;
  in_order = same done q messages e;
}
step-IsOrderly (ends ec) left true (suc zero) [] (n ∷ q) done messages f e = record {
  fits = tt;
  in_order = same done (n ∷ q) messages e;
}
step-IsOrderly (ends true) left true zero (some n' ∷ []) (n ∷ q) done messages f e = record {
  fits = inl refl;
  in_order = moved done q messages n' n f e;
}
step-IsOrderly (ends false) left true zero (some n' ∷ []) (n ∷ []) done messages f e = record {
  fits = inr refl;
  in_order = moved done [] messages n' n f e;
}
step-IsOrderly (ends false) left true zero (some n' ∷ []) (n ∷ (k ∷ q)) done messages f e = record {
  fits = tt;
  in_order = moved done (k ∷ q) messages n' n f e;
}
step-IsOrderly (ends ec) left false zero [] q done messages f e = record {
  fits = f;
  in_order = same done q messages e;
}
step-IsOrderly _ left w p fs q done messages f e = absurd f

sent-cons : (step : Step) (steps : List Step) → sent (step ∷ []) ++ sent steps ≡ sent (step ∷ steps)
sent-cons (sends m) steps = refl
sent-cons runs steps = refl
sent-cons (ends ec) steps = refl

run-IsOrderly :
    (steps : List Step) (messages : List String) (s : Session)
    → IsOrderly messages s
    → IsOrderly (messages ++ sent steps) (run_session steps s)
run-IsOrderly [] messages s v = subst (λ ms. IsOrderly ms s) (sym (append-nil messages)) v
run-IsOrderly (step ∷ steps) messages s v =
    let next =
      step-IsOrderly step s.left s.writing s.posted s.in_flight s.message_queue s.completed messages
        v.fits v.in_order in
    subst (λ ms. IsOrderly ms (run_session steps (session_step step s)))
      (append_assoc messages (sent (step ∷ [])) (sent steps)
        ∙ ap (λ ms. messages ++ ms) (sent-cons step steps))
      (run-IsOrderly steps (messages ++ sent (step ∷ [])) (session_step step s) next)

-- Whatever the network reports and in whatever order calls and writes meet, the messages whose
-- write has ended, followed by those still queued, are the messages sent, in their order; there is
-- never more than one `doWrite` posted or write in flight, a write is of the message at the front,
-- which is there; and while the session has not left the server, no message waits without one.
pub run_session-IsOrderly :
    (steps : List Step) → IsOrderly (sent steps) (run_session steps init_session)
run_session-IsOrderly steps =
    run-IsOrderly steps [] init_session (record { fits = inr refl; in_order = refl })
