-- ===== src/Workers/Pool.antt =====
-- workers/WorkerPool.cpp: round robin, and how much work a pool takes.
use mathlib.Core.List.{append_assoc}
use c11http.Common.{
  subst, ℕ, zero, suc, ◌+◌, ◌<◌, ◌≡◌, ◌≢◌, refl, Bool, none, List, [], ◌∷◌, ◌++◌, arith, length,
  length-set, length-append, get_elem?-some, ok, throw, fault, M, ◌>>◌, pure,
  promise_already_satisfied, ◌%◌, leb, if◌then◌else◌, All, All-get_elem?, get_elem?-append_mid,
  set-append_mid, set-get_elem?,
}
use c11http.Workers.{
  Work, Promise, Worker, WorkerPool, new_worker, add_work, provide_work, make_workers, make_pool,
  set_value,
}

-- A pool has an index to hand the next work to.
abbrev pub InRange : WorkerPool → Type 0
InRange pool = pool.current_worker < length pool.workers

length-make_workers : (n : ℕ) (found : ℕ → Bool) (i : ℕ) → length (make_workers n found i) ≡ n
length-make_workers zero found i = refl
length-make_workers (suc n) found i = omega (arith, length-make_workers n found (suc i))

-- The worker with a work in its promise.
abbrev pub given : Work → Worker → Worker
given work w = (provide_work work w).1

wrap : (c n : ℕ) → c < n → (if leb n (c + 1) then 0 else c + 1) ≡ (c + 1) % n
wrap c n h = grind arith

keep_outcome : (work : Work) (p : Promise) → (set_value work p).0 ≢ fault
unfolding set_value
keep_outcome work p = ground arith

-- `add_work` on a pool whose index is in range never reads outside the vector of workers, and
-- whether or not the worker accepts the work the next index is in range, one further round the ring.
pub add_work-InRange :
    (work : Work) (pool : WorkerPool)
    → InRange pool
    → ((add_work work pool).0 ≢ fault)
      × InRange (add_work work pool).1
      × ((add_work work pool).1.current_worker ≡ (pool.current_worker + 1) % length pool.workers)
      × (length (add_work work pool).1.workers ≡ length pool.workers)
unfolding add_work provide_work
add_work-InRange work pool h = ground (
  arith,
  (get_elem?-some pool.workers pool.current_worker h).1,
  wrap pool.current_worker (length pool.workers) h,
  keep_outcome work (get_elem?-some pool.workers pool.current_worker h).0.promise_to_work,
  length-set pool.workers pool.current_worker
      (given work (get_elem?-some pool.workers pool.current_worker h).0),
)

-- `addWork` of each work in turn, up to the first exception.
abbrev pub add_works : List Work → M WorkerPool (Unit {0})
add_works [] = pure tt
add_works (work ∷ works) = add_work work >> add_works works

abbrev pub IsFree : Worker → Type 0
IsFree w = w.promise_to_work.value ≡ none

abbrev after_slot : List Worker → List Worker → ℕ
after_slot xs [] = 0
after_slot xs (y ∷ ys) = length xs + 1

abbrev pub give_all : List Work → List Worker → List Worker
give_all [] ws = ws
give_all (work ∷ works) [] = []
give_all (work ∷ works) (w ∷ ws) = given work w ∷ give_all works ws

next_slot :
    (xs : List Worker) (w : Worker) (ys : List Worker)
    → (if leb (length (xs ++ w ∷ ys)) (length xs + 1) then 0 else length xs + 1) ≡ after_slot xs ys
next_slot xs w [] = ground (arith, length-append xs (w ∷ []))
next_slot xs w (y ∷ ys) = ground (arith, length-append xs (w ∷ y ∷ ys))

set_value-IsFree :
    (work : Work) (w : Worker) → IsFree w → (set_value work w.promise_to_work).0 ≡ ok tt
unfolding set_value
set_value-IsFree work w free = ground arith

add_work-IsFree :
    (work : Work) (xs : List Worker) (w : Worker) (ys : List Worker)
    → IsFree w
    → add_work work (record { workers = xs ++ w ∷ ys; current_worker = length xs })
      ≡ (ok tt, record { workers = xs ++ given work w ∷ ys; current_worker = after_slot xs ys })
unfolding add_work
add_work-IsFree work xs w ys free = rw (
  get_elem?-append_mid xs w ys,
  set-append_mid xs w (given work w) ys,
  next_slot xs w ys,
  set_value-IsFree work w free,
)

add_works-fills :
    (works : List Work) (xs : List Worker) (y : Worker) (ys : List Worker)
    → All IsFree (y ∷ ys)
    → length works ≡ suc (length ys)
    → add_works works (record { workers = xs ++ y ∷ ys; current_worker = length xs })
      ≡ (ok tt, record { workers = xs ++ give_all works (y ∷ ys); current_worker = 0 })
add_works-fills [] xs y ys free e = absurd (omega arith)
add_works-fills (work ∷ []) xs y [] free e = rw (add_work-IsFree work xs y [] free.0)
add_works-fills (work ∷ next ∷ works) xs y [] free e = absurd (omega arith)
add_works-fills (work ∷ works) xs y (z ∷ ys) free e =
    let ih = add_works-fills works (xs ++ given work y ∷ []) z ys free.1 (omega arith) in
    rw (add_work-IsFree work xs y (z ∷ ys) free.0)
      (rw (append_assoc, append_assoc, length-append xs (given work y ∷ [])) at ih)

make_workers-IsFree : (n : ℕ) (found : ℕ → Bool) (i : ℕ) → All IsFree (make_workers n found i)
unfolding new_worker
make_workers-IsFree zero found i = tt
make_workers-IsFree (suc n) found i = (refl, make_workers-IsFree n found (suc i))

abbrev pub HasWork : Worker → Type 0
HasWork w = w.promise_to_work.value ≢ none

-- A pool of n + 1 workers takes n + 1 works: the i-th call of `addWork` gives its work to the i-th
-- worker and raises nothing.
pub add_works-make_pool :
    (n : ℕ) (found : ℕ → Bool) (works : List Work)
    → length works ≡ suc n
    → add_works works (make_pool (suc n) found) ≡ (
      ok tt,
      record { workers = give_all works (make_workers (suc n) found 0); current_worker = 0 },
    )
add_works-make_pool n found works e =
    add_works-fills works [] _ _ (make_workers-IsFree (suc n) found 0)
      (omega (arith, length-make_workers n found 1))

given-HasWork : (work : Work) (w : Worker) → HasWork (given work w)
unfolding provide_work set_value
given-HasWork work w = ground arith

give_all-HasWork :
    (works : List Work) (ws : List Worker)
    → length works ≡ length ws
    → All IsFree ws
    → All HasWork (give_all works ws)
give_all-HasWork [] [] e f = tt
give_all-HasWork (work ∷ works) (w ∷ ws) e f =
    (given-HasWork work w, give_all-HasWork works ws (omega arith) f.1)
give_all-HasWork _ _ e f = absurd (omega arith)

set_value-HasWork :
    (work : Work) (w : Worker)
    → HasWork w
    → set_value work w.promise_to_work ≡ (throw promise_already_satisfied, w.promise_to_work)
unfolding set_value
set_value-HasWork work w has = ground arith

-- Once each worker has been given a work, `addWork` raises `promise_already_satisfied` and changes
-- no worker; only the index moves on.
pub add_work-HasWork :
    (work : Work) (pool : WorkerPool)
    → InRange pool
    → All HasWork pool.workers
    → ((add_work work pool).0 ≡ throw promise_already_satisfied)
      × ((add_work work pool).1.workers ≡ pool.workers)
unfolding add_work provide_work
add_work-HasWork work pool h full =
    let (w, here) = get_elem?-some pool.workers pool.current_worker h in
    rw (here, set_value-HasWork work w (All-get_elem? HasWork _ _ w full here))
      (refl, set-get_elem? _ _ w here)

-- A pool of n + 1 workers takes no more than n + 1 works: after these, the next call raises
-- `promise_already_satisfied` and leaves all workers as they are.
pub pool_takes_no_more :
    (n : ℕ) (found : ℕ → Bool) (works : List Work) (extra : Work)
    → length works ≡ suc n
    → let full = (add_works works (make_pool (suc n) found)).1 in
      ((add_work extra full).0 ≡ throw promise_already_satisfied)
      × ((add_work extra full).1.workers ≡ full.workers)
pool_takes_no_more n found [] extra e = absurd (omega arith)
pool_takes_no_more n found (work ∷ works) extra e =
    rw (add_works-make_pool n found (work ∷ works) e) (
      add_work-HasWork extra _ (omega arith) (
        give_all-HasWork (work ∷ works) (make_workers (suc n) found 0)
          (omega (arith, length-make_workers n found 1)) (make_workers-IsFree (suc n) found 0)))

-- A pool of n + 1 workers takes n + 1 works and no more: the i-th call of `addWork` gives its work to
-- the i-th worker and raises nothing, and the call after these raises `promise_already_satisfied` and
-- leaves all workers as they are.
pub pool_capacity :
    (n : ℕ) (found : ℕ → Bool) (works : List Work) (extra : Work)
    → length works ≡ suc n
    → let full : WorkerPool = record {
      workers = give_all works (make_workers (suc n) found 0);
      current_worker = 0;
    } in
      (add_works works (make_pool (suc n) found) ≡ (ok tt, full))
      × ((add_work extra full).0 ≡ throw promise_already_satisfied)
      × ((add_work extra full).1.workers ≡ full.workers)
pool_capacity n found works extra e =
    let filled = add_works-make_pool n found works e in
    let (refuses, keeps) =
      subst
        (λ r.
          ((add_work extra r.1).0 ≡ throw promise_already_satisfied)
          × ((add_work extra r.1).1.workers ≡ r.1.workers))
        filled (pool_takes_no_more n found works extra e) in
    (filled, refuses, keeps)
