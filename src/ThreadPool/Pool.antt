-- ===== src/ThreadPool/Pool.antt =====
-- The queues of a thread pool and its workers: `work_steal`, `job_seeking` and `thrdpool_add` of
-- src/thread_pool.c, each under the mutex of the pool. A queue is what src/collections.c makes of
-- it, a bounded list of jobs.
use coop_tasks.Base.{
  ℕ, zero, suc, Option, none, some, List, [], ◌∷◌, ◌++◌, ◌==◌, ltb, if◌then◌else◌, length, inc32,
  inc64, dec64,
}
use coop_tasks.ThreadPool.JobFields.{Job}

-- `MAX_JOBS`
abbrev pub max_jobs : ℕ
max_jobs = 32

abbrev pub Jobs : Type 0
Jobs = List Job

-- `struct worker` as far as seeking goes: its thread and its own queue.
pub record Worker : Type 0 where
  pub thr : ℕ
  pub local_jobs : Jobs

-- `struct thread_pool`; the worker list ends where the source has the one with `wid` -1.
pub record ThreadPool : Type 0 where
  pub jobs : Jobs
  pub num_local_jobs : ℕ
  pub workers : List Worker

-- `queue_enqueue` and `queue_dequeue` on a queue of `MAX_JOBS` jobs.
abbrev pub queue_enqueue : Jobs → Job → Option Jobs
queue_enqueue q job = if ltb (length q) max_jobs then some (q ++ job ∷ []) else none

abbrev pub queue_dequeue : Jobs → Option (Job × Jobs)
queue_dequeue [] = none
queue_dequeue (job ∷ q) = some (job, q)

abbrev pub keep_worker : Worker → Option (Job × List Worker) → Option (Job × List Worker)
keep_worker w none = none
keep_worker w (some (job, ws)) = some (job, w ∷ ws)

-- One victim: the thief's own queue is passed over.
abbrev pub steal_from : ℕ → Worker → Option (Job × Worker)
steal_from self w = if w.thr == self then none else elim (queue_dequeue w.local_jobs) [
  | none ↦ none
  | some (job, q) ↦ some (job, record w { local_jobs = q })
]

-- The first worker but `self` with a job gives it away.
unfoldable pub work_steal : ℕ → List Worker → Option (Job × List Worker)
work_steal self [] = none
work_steal self (w ∷ ws) =
    let rest = keep_worker w (work_steal self ws) in
    elim (steal_from self w) [ none ↦ rest | some (job, w') ↦ some (job, w' ∷ ws) ]

-- `queue_dequeue(&self->local_jobs, job)` for the worker at an index.
abbrev pub took_from : Worker → List Worker → Option (Job × Jobs) → Option (Job × List Worker)
took_from w ws none = none
took_from w ws (some (job, q)) = some (job, record w { local_jobs = q } ∷ ws)

unfoldable pub own_dequeue : ℕ → List Worker → Option (Job × List Worker)
own_dequeue i [] = none
own_dequeue zero (w ∷ ws) = took_from w ws (queue_dequeue w.local_jobs)
own_dequeue (suc i) (w ∷ ws) = keep_worker w (own_dequeue i ws)

-- `self->thr` for the worker at an index.
abbrev pub thr_of : ℕ → List Worker → ℕ
thr_of i [] = 0
thr_of zero (w ∷ ws) = w.thr
thr_of (suc i) (w ∷ ws) = thr_of i ws

abbrev pub or_else : {A : Type 0} → Option A → Option A → Option A
or_else none o = o
or_else (some a) o = some a

abbrev pub took_local : ThreadPool → Option (Job × List Worker) → Option (Job × ThreadPool)
took_local tp none = none
took_local tp (some (job, ws)) =
    some (job, record tp { num_local_jobs = dec64 tp.num_local_jobs; workers = ws })

abbrev pub took_global : ThreadPool → Option (Job × Jobs) → Option (Job × ThreadPool)
took_global tp none = none
took_global tp (some (job, q)) = some (job, record tp { jobs = q })

-- The local queues are looked at only if the count says that one holds a job.
unfoldable pub job_seeking : ℕ → ThreadPool → Option (Job × ThreadPool)
job_seeking self tp =
    or_else
      (if ltb 0 tp.num_local_jobs
        then took_local tp
            (or_else (own_dequeue self tp.workers) (work_steal (thr_of self tp.workers) tp.workers))
        else none)
      (took_global tp (queue_dequeue tp.jobs))

-- `queue_enqueue(&ctx->local_jobs, job)` for the worker at an index.
abbrev pub gave_to : Worker → List Worker → Option Jobs → Option (List Worker)
gave_to w ws none = none
gave_to w ws (some q) = some (record w { local_jobs = q } ∷ ws)

abbrev pub keep_first : Worker → Option (List Worker) → Option (List Worker)
keep_first w none = none
keep_first w (some ws) = some (w ∷ ws)

unfoldable pub own_enqueue : ℕ → Job → List Worker → Option (List Worker)
own_enqueue i job [] = none
own_enqueue zero job (w ∷ ws) = gave_to w ws (queue_enqueue w.local_jobs job)
own_enqueue (suc i) job (w ∷ ws) = keep_first w (own_enqueue i job ws)

abbrev pub added_local : ThreadPool → Option (List Worker) → Option ThreadPool
added_local tp none = none
added_local tp (some ws) =
    some (record tp { num_local_jobs = inc64 tp.num_local_jobs; workers = ws })

abbrev pub added_global : ThreadPool → Option Jobs → Option ThreadPool
added_global tp none = none
added_global tp (some q) = some (record tp { jobs = q })

-- `ctx` is the index of the worker of this pool that runs the call, or NULL outside the pool's
-- threads; `juid` is the next job number. The result is the pool, if the job was queued, and the
-- job with its number.
unfoldable pub thrdpool_add : Option ℕ → ℕ → ThreadPool → Job → Option ThreadPool × Job × ℕ
thrdpool_add none juid tp job =
    let job' = record job { id = juid } in
    (added_global tp (queue_enqueue tp.jobs job'), job', inc32 juid)
thrdpool_add (some ctx) juid tp job =
    let job' = record job { id = juid } in
    (added_local tp (own_enqueue ctx job' tp.workers), job', inc32 juid)

-- `num_workers` is the number of workers, which is fixed when the pool is made.
unfoldable thrdpool_num_workers : Option ThreadPool → Option ℕ
thrdpool_num_workers none = none
thrdpool_num_workers (some tp) = some (length tp.workers)
