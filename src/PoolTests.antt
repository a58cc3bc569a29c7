-- ===== src/PoolTests.antt =====
-- The theorems on the workers of a pool, at a pool of two.
use coop_tasks.Base.{
  Bool, ◌==◌, ℕ, zero, suc, ap, ◌%◌, ◌/◌, ◌++◌, length, if◌then◌else◌, Option, ◌+◌, ◌≡◌, refl, true,
  false, ltb, none, some, List, [], ◌∷◌, arith,
}
use coop_tasks.Future.{promise_get_future, promise_set_value, future_get_value}
use coop_tasks.ThreadPool.Cancel.{Event, cancelled, joined, cancel_workers, CancelledAll}
use coop_tasks.ThreadPool.Create.{
  Held, Handle, ended, stuck, undefined, create_locals, thrdpool_create, thrdpool_destroy,
  worker_creator, with_queues, create-destroy, create-stuck, create-leaves,
}
use coop_tasks.ThreadPool.{
  Job, job_maker, ThreadPool, job_seeking, thrdpool_add, own_enqueue, locals, waiting_jobs, weigh,
  weigh_locals, seeking, System, phase_at, seek, take_up, add, start, seek_job, begin_job,
  add_outside, add_inside, thread_pool_maker, Reach, at_first, then_step, total, held, runs, looks,
  jobs_kept, counts_right, job_seeking-finds,
}
use mathlib.Core.List.{map}
use coop_tasks.Heap.{World}
use coop_tasks.Heap.Returns.{Returns, outcome}
use coop_tasks.Mempool.{Status, InSpace, internal_mempool_aligned_data_bytes}
use coop_tasks.Queue.{Queue, CreatePost, create-IsQueue, code_run, represents}
use coop_tasks.ThreadPool.Queues.{
  Layout, JobCall, put, get, pool_run, call_of, Serves, pool_run-Serves,
}
use coop_tasks.QueueTests.{no_queue}
use coop_tasks.MempoolTests.{world}

-- A job is added, both workers start, the first takes the job up, and the job adds another one.
abbrev a_job : Job
a_job = job_maker (some 77) 5

abbrev names : ℕ → List ℕ
names i = i ∷ []

busy :
    (s : System) × Reach names (10 ∷ 11 ∷ []) s
    × (waiting_jobs s.pool ≡ 1)
    × (phase_at 1 s.threads ≡ some seeking)
unfolding thread_pool_maker add seek take_up job_seeking waiting_jobs thrdpool_add own_enqueue
    locals
busy = (
  _,
  then_step
      (then_step
        (then_step
          (then_step (then_step (then_step at_first (add_outside a_job)) (start 0 refl))
            (start 1 refl))
          (seek_job 0 refl))
        (begin_job 0 (record a_job { id = 0 }) refl))
      (add_inside 0 a_job (record a_job { id = 0 }) refl),
  refl,
  refl,
)

jobs_kept_example :
    weigh (λ job. job.id) busy.0.accepted
    ≡ weigh (λ job. job.id) busy.0.pool.jobs
      + weigh_locals (λ job. job.id) busy.0.pool.workers
      + total (held (λ job. job.id)) busy.0.threads
      + weigh (λ job. job.id) busy.0.ran
jobs_kept_example =
    jobs_kept (10 ∷ 11 ∷ []) (refl, (refl, tt)) (omega arith) names busy.1 (λ job. job.id)

counts_right_example :
    (busy.0.num_active ≡ total runs busy.0.threads)
    × (busy.0.pool.num_local_jobs ≡ locals busy.0.pool.workers)
counts_right_example = counts_right (10 ∷ 11 ∷ []) (refl, (refl, tt)) (omega arith) names busy.1

job_seeking-finds_example :
    (phase_at 1 busy.0.threads ≡ some seeking)
    × ((job : Job) × (tp : ThreadPool) × (job_seeking 1 busy.0.pool ≡ some (job, tp)))
job_seeking-finds_example =
    job_seeking-finds (10 ∷ 11 ∷ []) (refl, (refl, tt)) (omega arith) names busy.1
      (omega (arith, busy.2)) 1 seeking busy.3 looks

abbrev nothing_held : Held
nothing_held = record { blocks = 0; queues = [] }

-- Two workers, of which the first has ended and is not found.
abbrev second_found : ℕ → Bool
second_found i = i == 1

create-destroy_example :
    (self : Handle) × (held' : Held) × (thrdpool_create true (λ _. true) true 2 nothing_held
      ≡ ended (some self, held'))
    × (thrdpool_destroy second_found (some self) held' ≡ stuck)
    × ((events : List Event) × (thrdpool_destroy second_found
            (some ((worker_creator (λ _. true) self []).0))
            held'
          ≡ ended (events, nothing_held))
        × CancelledAll second_found 2 events)
create-destroy_example =
    create-destroy (λ _. true) 1 nothing_held (λ k le. refl) second_found (λ _. true) []
      (λ i le. refl)

cancel_order :
    cancel_workers (λ _. true) second_found 2 ≡ some (cancelled 1 ∷ joined 1 ∷ cancelled 0 ∷ [])
unfolding cancel_workers
cancel_order = refl

-- The second worker has no thread: `pthread_cancel` is called on what was never set.
no_thread :
    (self : Handle) × (held' : Held) × (thrdpool_create true (λ _. true) true 2 nothing_held
      ≡ ended (some self, held'))
    × (thrdpool_destroy second_found (some ((worker_creator (λ _. false) self []).0)) held'
        ≡ undefined)
unfolding thrdpool_create create_locals thrdpool_destroy worker_creator cancel_workers
    promise_get_future promise_set_value future_get_value
no_thread = (_, _, refl, refl)

create-stuck_example : thrdpool_create true (λ _. true) false 2 nothing_held ≡ stuck
create-stuck_example = create-stuck (λ _. true) 1 nothing_held (λ k le. refl)

-- There is memory for two queues: the pool's, and the first worker's.
create-leaves_example :
    thrdpool_create true (λ k. ltb k 2) true 2 nothing_held
    ≡ ended (none, record nothing_held { queues = with_queues 0 1 [] })
create-leaves_example =
    create-leaves (λ k. ltb k 2) 1 nothing_held 1 true (λ k le. ground arith) refl (omega arith)

-- The bytes of a job on a 64-bit machine with the low byte first.
unfoldable low_first : ℕ → ℕ → List ℕ
low_first zero n = []
low_first (suc k) n = n % 256 ∷ low_first k (n / 256)

unfoldable filled_up : ℕ → List ℕ → List ℕ
filled_up zero bytes = []
filled_up (suc k) [] = 0 ∷ filled_up k []
filled_up (suc k) (b ∷ bytes) = b ∷ filled_up k bytes

length-low_first : (k n : ℕ) → length (low_first k n) ≡ k
unfolding low_first
length-low_first zero n = refl
length-low_first (suc k) n = ap suc (length-low_first k (n / 256))

length-filled_up : (k : ℕ) (bytes : List ℕ) → length (filled_up k bytes) ≡ k
unfolding filled_up
length-filled_up zero bytes = refl
length-filled_up (suc k) [] = ap suc (length-filled_up k [])
length-filled_up (suc k) (b ∷ bytes) = ap suc (length-filled_up k bytes)

abbrev job_words : Job → List ℕ
job_words job =
    low_first 8 job.id
    ++ low_first 8 job.start_time
    ++ low_first 8 job.end_time
    ++ low_first 8 (elim job.func [ none ↦ 0 | some f ↦ f ])
    ++ low_first 8 job.arg
    ++ filled_up 32 job.name
    ++ filled_up 8 ((if job.waitable then 1 else 0) ∷ [])

abbrev layout : Layout 80
layout = record {
  bytes = λ job. filled_up 80 (job_words job);
  length-bytes = λ job. length-filled_up 80 (job_words job);
}

jobs_space : InSpace 4096 96 33
unfolding internal_mempool_aligned_data_bytes
jobs_space = record { ne_null = omega arith; small = omega arith; fits = omega arith }

-- A new queue of jobs.
job_queue : (a : Status × Option Queue) × (w : World) × CreatePost 4096 80 32 a w
job_queue = outcome (
    create-IsQueue {n = 80} {capacity = 32} jobs_space (omega arith) (omega arith) (omega arith)
      no_queue world)

abbrev job_calls : List JobCall
job_calls = put a_job ∷ put (record a_job { id = 1 }) ∷ get a_job ∷ []

pool_run-Serves_example :
    Returns
      (Serves layout (pool_run job_calls []))
      (code_run 80 (map (call_of layout) job_calls) (some job_queue.2.0) job_queue.1)
pool_run-Serves_example =
    pool_run-Serves layout job_calls [] (represents job_queue.2.3 job_queue.2.4 job_queue.2.5)
