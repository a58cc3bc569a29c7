-- ===== src/Tests.antt =====
-- The theorems at concrete promises, jobs and control blocks.
use coop_tasks.Base.{
  take, drop, ◌++◌, ℕ, ◌≡◌, ◌≢◌, refl, true, none, some, [], ◌∷◌, replicate, arith,
}
use coop_tasks.ThreadPool.{
  Job, job_maker, ThreadPool, IsCounted, Sought, job_seeking, job_seeking-Sought, Added,
  thrdpool_add, add-Added, locals,
}
use coop_tasks.Threads.{
  Tcb, Tcbs, succeeded, list_search, thrd_set_name, thrd_get_name, set_name-get_name,
}
use coop_tasks.Future.{
  Promise, promise_initializer, promise_get_future, promise_set_value, future_has_value,
  future_get_value, returned, set-get, Reach, here, next, lock_setter, store_value, store_done,
  unlock_setter, lock_waiter, leave_loop, read, got-value, State, got,
}

set-get_example :
    (set : Promise) × (prms' : Promise) × (promise_get_future (some promise_initializer)
      ≡ returned none (true, some prms'))
    × (promise_set_value (some prms') 7 ≡ returned none (true, some set))
    × (future_has_value (some set.ftr) ≡ returned none true)
    × (future_get_value (some set.ftr) (some 1) ≡ returned none (true, some 7))
    × (future_get_value (some set.ftr) none ≡ returned none (true, none))
set-get_example = set-get promise_initializer 7 1

-- The setter runs, and then the waiter 0.
a_read : (s : State) × Reach 7 s × (s.waiters 0 ≡ got 7)
a_read = (
  _,
  next
      (next
        (next
          (next
            (next (next (next here (lock_setter refl refl)) (store_value refl)) (store_done refl))
            (unlock_setter refl))
          (lock_waiter 0 refl refl))
        (leave_loop 0 refl refl))
      (read 0 refl),
  refl,
)

got-value_example : ◌≡◌ {A = ℕ} 7 7
got-value_example = got-value 7 a_read.1 0 7 a_read.2

abbrev a_job : Job
a_job = job_maker (some 77) 5

-- Worker 0 is idle, and worker 1 has a job of its own.
abbrev two_workers : ThreadPool
two_workers = record {
  jobs = [];
  num_local_jobs = 1;
  workers =
      record { thr = 10; local_jobs = [] } ∷ record { thr = 11; local_jobs = a_job ∷ [] } ∷ [];
}

two_workers-IsCounted : IsCounted two_workers
unfolding locals
two_workers-IsCounted = record { counted = refl; small = omega arith }

job_seeking-Sought_example : Sought two_workers (job_seeking 0 two_workers)
job_seeking-Sought_example = job_seeking-Sought 0 two_workers two_workers-IsCounted (omega arith)

add-Added_example : Added (some 0) 3 two_workers (thrdpool_add (some 0) 3 two_workers a_job)
add-Added_example = add-Added (some 0) 3 two_workers a_job two_workers-IsCounted (omega arith)

abbrev a_tcb : Tcb
a_tcb = record { thr = 10; name = replicate 16 0; suspend = 7 }

-- Threads 10 and 11.
abbrev blocks : Tcbs
blocks = (10, a_tcb) ∷ (11, a_tcb) ∷ []

has_block : list_search 11 blocks ≡ some a_tcb
unfolding list_search
has_block = refl

set_name-get_name_example :
    (tcbs' : Tcbs) × (thrd_set_name 11 (97 ∷ []) blocks ≡ succeeded tcbs')
    × (list_search 11 tcbs'
        ≡ some (record {
          thr = a_tcb.thr;
          name = take 15 (97 ∷ [] ++ replicate 15 0) ++ 0 ∷ [];
          suspend = a_tcb.suspend;
        }))
    × ((t : ℕ) → t ≢ 11 → list_search t tcbs' ≡ list_search t blocks)
    × (thrd_get_name 11 (replicate 20 1) 16 tcbs'
        ≡ succeeded (take 16 (take 15 (97 ∷ []) ++ replicate 16 0) ++ drop 16 (replicate 20 1)))
set_name-get_name_example =
    set_name-get_name 11 (97 ∷ []) (replicate 20 1) 16 a_tcb blocks has_block refl (ground arith)
      (omega arith)
