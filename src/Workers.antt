-- ===== src/Workers.antt =====
-- workers/Worker.h, Worker.cpp, WorkerPool.h and WorkerPool.cpp. The thread of a worker is a state
-- machine that stops at each point where it can wait; `std::promise` is the standard's.
pub mod Thread
pub mod Pool
use c11http.Common.{
  ℕ, suc, ◌+◌, Bool, true, false, Option, none, some, List, [], ◌∷◌, ◌++◌, map, Error,
  number_of_workers, promise_already_satisfied, future_already_retrieved, Outcome, ok, throw, fault,
  M, pure, raise, crash, and_then, ◌>>=◌, ◌>>◌, get, modify, demand, leb, length, get_elem?, set,
  replicate, if◌then◌else◌,
}
use c11http.Objects.{
  HttpRequest, HttpResponse, HttpRequestToResponse, default_request, default_response,
}

-- What a `std::function` of type HttpRequestToResponse does here: answer, or be the closure that
-- `~Worker` posts, which sets `mShutdown` and answers with an empty response.
pub data Handler : Type 0 where
  user : HttpRequestToResponse → Handler
  stop : Handler

abbrev pub answer : Handler → HttpRequest → HttpResponse
answer (user f) req = f req
answer stop req = default_response

abbrev pub sets_shutdown : Handler → Bool → Bool
sets_shutdown (user f) shutdown = shutdown
sets_shutdown stop shutdown = true

pub record Work : Type 0 where
  pub request : HttpRequest
  pub handler : Handler

-- `std::promise<Work>`: the value, once set, and whether its future has been taken.
pub record Promise : Type 0 where
  pub value : Option Work
  pub retrieved : Bool

abbrev pub satisfy : Option Work → Work → M Promise (Unit {0})
satisfy none work p = (ok tt, record p { value = some work })
satisfy (some old) work p = (throw promise_already_satisfied, p)

unfoldable pub set_value : Work → M Promise (Unit {0})
set_value work p = satisfy p.value work p

-- Where the thread of a worker stands: before the test of its loop, in `wait`, after its return, or
-- out by an exception, which ends the process.
pub data ThreadState : Type 0 where
  at_loop waiting returned terminated : ThreadState

pub record Worker : Type 0 where
  pub promise_to_work : Promise
  pub shutdown : Bool
  pub thread : ThreadState
  pub responses : List HttpResponse  -- what the handlers have answered, oldest first

-- `Worker::Worker` leaves `mShutdown` as it finds it: the value is an argument.
unfoldable pub new_worker : Bool → Worker
new_worker found = record {
  promise_to_work = record { value = none; retrieved = false };
  shutdown = found;
  thread = at_loop;
  responses = [];
}

abbrev keep_promise : Worker → Outcome (Unit {0}) × Promise → Outcome (Unit {0}) × Worker
keep_promise w (o, p) = (o, record w { promise_to_work = p })

unfoldable pub provide_work : Work → M Worker (Unit {0})
unfolding set_value
provide_work work w = keep_promise w (set_value work w.promise_to_work)

-- `Worker::~Worker`.
unfoldable pub destroy_worker : M Worker (Unit {0})
unfolding set_value
destroy_worker w =
    keep_promise w
      (set_value (record { request = default_request; handler = stop }) w.promise_to_work)

-- The test of the loop, and `get_future`.
abbrev enter_loop : Bool → Bool → Worker → Worker
enter_loop true retrieved w = record w { thread = returned }
enter_loop false true w = record w { thread = terminated }
enter_loop false false w = record w {
  promise_to_work = record { value = w.promise_to_work.value; retrieved = true };
  thread = waiting;
}

-- `wait` and `get`, and the rest of the loop's body.
abbrev wake : Option Work → Worker → Worker
wake none w = w
wake (some work) w = record w {
  shutdown = sets_shutdown work.handler w.shutdown;
  thread = at_loop;
  responses = w.responses ++ answer work.handler work.request ∷ [];
}

abbrev advance : ThreadState → Worker → Worker
advance at_loop w = enter_loop w.shutdown w.promise_to_work.retrieved w
advance waiting w = wake w.promise_to_work.value w
advance returned w = w
advance terminated w = w

-- One step of `Worker::threadEntryPoint`.
unfoldable pub thread_step : Worker → Worker
thread_step w = advance w.thread w

pub record WorkerPool : Type 0 where
  pub workers : List Worker  -- each with its thread
  pub current_worker : ℕ

pub data ℤ : Type 0 where
  pos : ℕ → ℤ
  negsuc : ℕ → ℤ

-- The loops of the constructor, over the numbers of workers left.
abbrev pub make_workers : ℕ → (ℕ → Bool) → ℕ → List Worker
make_workers ℕ.zero found i = []
make_workers (suc n) found i = new_worker (found i) ∷ make_workers n found (suc i)

abbrev pub make_pool : ℕ → (ℕ → Bool) → WorkerPool
make_pool n found = record { workers = make_workers n found 0; current_worker = 0 }

-- `WorkerPool::WorkerPool`: `found i` is what the i-th `new Worker()` leaves in `mShutdown`.
unfoldable pub new_pool : ℤ → (ℕ → Bool) → Outcome WorkerPool
new_pool (pos ℕ.zero) found = throw number_of_workers
new_pool (pos (suc n)) found = ok (make_pool (suc n) found)
new_pool (negsuc n) found = throw number_of_workers

-- The part of `addWork` under the lock.
abbrev next_worker : WorkerPool → WorkerPool
next_worker pool =
    let next = pool.current_worker + 1 in
    record pool { current_worker = if leb (length pool.workers) next then 0 else next }

abbrev keep_worker : ℕ → WorkerPool → Outcome (Unit {0}) × Worker → Outcome (Unit {0}) × WorkerPool
keep_worker i pool (o, w) = (o, record pool { workers = set pool.workers i w })

abbrev provide_to : Option Worker → ℕ → Work → M WorkerPool (Unit {0})
provide_to none i work pool = (fault, pool)
provide_to (some w) i work pool = keep_worker i pool (provide_work work w)

unfoldable pub add_work : Work → M WorkerPool (Unit {0})
unfolding provide_work
add_work work pool =
    provide_to (get_elem? pool.workers pool.current_worker) pool.current_worker work
      (next_worker pool)
