-- ===== src/Examples/Workers.antt =====
-- The theorems on workers and their pool, applied.
use c11http.Common.{
  ℕ, ◌+◌, ◌≡◌, ◌≢◌, ◌⊎◌, refl, Bool, false, List, [], ◌∷◌, length, arith, ok, throw, fault,
  promise_already_satisfied, ◌%◌,
}
use c11http.Objects.{HttpRequest, HttpResponse, default_request}
use c11http.Workers.{
  WorkerPool, Work, user, terminated, new_worker, add_work, make_pool, make_workers,
}
use c11http.Workers.Thread.{Act, provides, steps, run, run_answers_first, run_terminates}
use c11http.Workers.Pool.{InRange, add_work-InRange, add_works, pool_capacity, give_all}

abbrev page : HttpResponse
page = record { body = b'o' ∷ b'k' ∷ [] }

abbrev serve : HttpRequest → HttpResponse
serve req = page

abbrev echo : HttpRequest → HttpResponse
echo req = record { body = req.body }

abbrev busy : List Act
busy = steps ∷ provides default_request serve ∷ provides default_request echo ∷ steps ∷ []

run_answers_first_example :
    ((run (new_worker false) busy).responses ≡ [])
    ⊎ ((run (new_worker false) busy).responses ≡ page ∷ [])
run_answers_first_example = run_answers_first false busy

run_terminates_example :
    let w = run (run (new_worker false) busy) (steps ∷ steps ∷ steps ∷ []) in
    (w.thread ≡ terminated) × (w.responses ≡ page ∷ [])
run_terminates_example = run_terminates busy page refl

abbrev job : Work
job = record { request = default_request; handler = user serve }

abbrev unset : ℕ → Bool
unset i = false

add_work-InRange_example :
    ((add_work job (make_pool 3 unset)).0 ≢ fault)
    × InRange (add_work job (make_pool 3 unset)).1
    × ((add_work job (make_pool 3 unset)).1.current_worker ≡ (0 + 1) % 3)
    × (length (add_work job (make_pool 3 unset)).1.workers ≡ 3)
add_work-InRange_example = add_work-InRange job (make_pool 3 unset) (omega arith)

pool_capacity_example :
    let full : WorkerPool = record {
      workers = give_all (job ∷ job ∷ []) (make_workers 2 unset 0);
      current_worker = 0;
    } in
    (add_works (job ∷ job ∷ []) (make_pool 2 unset) ≡ (ok tt, full))
    × ((add_work job full).0 ≡ throw promise_already_satisfied)
    × ((add_work job full).1.workers ≡ full.workers)
pool_capacity_example = pool_capacity 1 unset (job ∷ job ∷ []) job refl
