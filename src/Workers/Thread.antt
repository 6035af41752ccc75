-- ===== src/Workers/Thread.antt =====
-- workers/Worker.cpp: what a worker does under any schedule of its thread and of its callers.
use c11http.Common.{
  ◌≢◌, ◌≡◌, refl, ◌⊎◌, inl, inr, ◌∙◌, Bool, true, false, Option, none, some, List, [], ◌∷◌, arith,
  Option-cases,
}
use c11http.Objects.{HttpRequest, HttpResponse, HttpRequestToResponse}
use c11http.Workers.{
  Work, ThreadState, satisfy, Promise, user, answer, Worker, at_loop, waiting, terminated,
  new_worker, provide_work, thread_step,
}

-- What can happen to a worker before its destructor: a caller gives it work for a user's function,
-- or its thread makes a step.
pub data Act : Type 0 where
  provides : HttpRequest → HttpRequestToResponse → Act
  steps : Act

abbrev pub user_work : HttpRequest → HttpRequestToResponse → Work
user_work req f = record { request = req; handler = user f }

abbrev pub act : Worker → Act → Worker
act w (provides req f) = (provide_work (user_work req f) w).1
act w steps = thread_step w

abbrev pub run : Worker → List Act → Worker
run w [] = w
run w (a ∷ acts) = run (act w a) acts

-- The answer to the first work of a schedule, as a list of at most one.
abbrev pub first_answer : List Act → List HttpResponse
first_answer [] = []
first_answer (provides req f ∷ acts) = f req ∷ []
first_answer (steps ∷ acts) = first_answer acts

-- The answer to the work in the promise, or else to the first one that is still to come.
abbrev pending_or : List HttpResponse → Option Work → List HttpResponse
pending_or later none = later
pending_or later (some work) = answer work.handler work.request ∷ []

abbrev pending : Worker → List Act → List HttpResponse
pending w acts = pending_or (first_answer acts) w.promise_to_work.value

abbrev IsUser : Option Work → Type 0
IsUser none = Unit {0}
IsUser (some work) = (f : HttpRequestToResponse) × (work.handler ≡ user f)

record Inv (w : Worker) : Type 0 where
  untaken : w.promise_to_work.retrieved ≡ false → w.responses ≡ []
  in_wait : w.thread ≡ waiting → (w.promise_to_work.retrieved ≡ true) × (w.responses ≡ [])
  served : (w.responses ≡ []) ⊎ (w.responses ≡ pending w [])

provide-Inv :
    (req : HttpRequest) (f : HttpRequestToResponse) (w : Worker)
    → Inv w
    → Inv (act w (provides req f))
unfolding provide_work
provide-Inv req f w v = ground arith

step-Inv : (w : Worker) → Inv w → Inv (thread_step w)
unfolding thread_step
step-Inv w v = ground arith

act-Inv : (w : Worker) (a : Act) → Inv w → Inv (act w a)
act-Inv w (provides req f) v = provide-Inv req f w v
act-Inv w steps v = step-Inv w v

pending-act :
    (w : Worker) (a : Act) (acts : List Act) → pending (act w a) acts ≡ pending w (a ∷ acts)
unfolding provide_work thread_step
pending-act w (provides req f) acts = ground arith
pending-act w steps acts = ground arith

run_answers :
    (w : Worker) (acts : List Act)
    → Inv w
    → ((run w acts).responses ≡ []) ⊎ ((run w acts).responses ≡ pending w acts)
run_answers w [] v = v.served
run_answers w (a ∷ acts) v =
    rw (← pending-act w a acts) (run_answers (act w a) acts (act-Inv w a v))

new_worker-Inv : (found : Bool) → Inv (new_worker found)
unfolding new_worker
new_worker-Inv found = ground arith

-- Whatever `mShutdown` starts as, and however the calls of `provideWork` and the steps of the thread
-- are interleaved, a worker has answered nothing, or the first work that it was given and nothing
-- else.
pub run_answers_first :
    (found : Bool) (acts : List Act)
    → ((run (new_worker found) acts).responses ≡ [])
      ⊎ ((run (new_worker found) acts).responses ≡ first_answer acts)
unfolding new_worker
run_answers_first found acts = run_answers (new_worker found) acts (new_worker-Inv found)

abbrev IsAnswered : Worker → Type 0
IsAnswered w = (w.promise_to_work.value ≢ none) × (w.responses ≡ pending w [])

-- Where a worker can stand whose `mShutdown` was false, and what it has answered there.
abbrev Stage : Worker → ThreadState → Bool → Type 0
Stage w at_loop false = w.responses ≡ []
Stage w waiting true = w.responses ≡ []
Stage w at_loop true = IsAnswered w
Stage w terminated true = IsAnswered w
Stage w _ _ = ⊥

record Running (w : Worker) : Type 0 where
  alive : w.shutdown ≡ false
  user_only : IsUser w.promise_to_work.value
  stage : Stage w w.thread w.promise_to_work.retrieved

satisfy-IsUser :
    (req : HttpRequest) (f : HttpRequestToResponse) (p : Promise) (o : Option Work)
    → IsUser p.value
    → IsUser (satisfy o (user_work req f) p).1.value
satisfy-IsUser req f p none u = (f, refl)
satisfy-IsUser req f p (some work) u = u

act-Running : (w : Worker) (a : Act) → Running w → Running (act w a)
unfolding provide_work thread_step
act-Running w (provides req f) r = record {
  alive = ground (arith, r.alive);
  user_only = satisfy-IsUser req f w.promise_to_work w.promise_to_work.value r.user_only;
  stage = ground (arith, r.stage);
}
act-Running w steps r = ground arith

run-Running : (w : Worker) (acts : List Act) → Running w → Running (run w acts)
run-Running w [] r = r
run-Running w (a ∷ acts) r = run-Running (act w a) acts (act-Running w a r)

new_worker-Running : Running (new_worker false)
unfolding new_worker
new_worker-Running = record { alive = refl; user_only = tt; stage = refl }

pending-run : (w : Worker) (acts : List Act) → pending (run w acts) [] ≡ pending w acts
pending-run w [] = refl
pending-run w (a ∷ acts) = pending-run (act w a) acts ∙ pending-act w a acts

-- Three steps take a thread that has work from any of these places to its end.
three_steps :
    (w : Worker) (work : Work)
    → w.promise_to_work.value ≡ some work
    → Running w
    → let u = run w (steps ∷ steps ∷ steps ∷ []) in
      (u.thread ≡ terminated) × (u.responses ≡ answer work.handler work.request ∷ [])
unfolding thread_step
three_steps w work e r = ground arith

-- Where `mShutdown` starts as false, a worker that has been given work answers the first one within
-- three steps of its thread, and by then the thread is out by an exception, since `get_future` is
-- called on the same promise again.
pub run_terminates :
    (acts : List Act) (resp : HttpResponse)
    → first_answer acts ≡ resp ∷ []
    → let w = run (run (new_worker false) acts) (steps ∷ steps ∷ steps ∷ []) in
      (w.thread ≡ terminated) × (w.responses ≡ resp ∷ [])
run_terminates acts resp e = elim (Option-cases w.promise_to_work.value) [
  | inl missing ↦ ground (arith, owed, missing)
  | inr (work, given) ↦
      ground (arith, owed, given, three_steps w work given (run-Running _ acts new_worker-Running))
]
  where
    w : Worker
    w = run (new_worker false) acts

    owed : pending w [] ≡ resp ∷ []
    owed = pending-run (new_worker false) acts ∙ unfold new_worker in e
