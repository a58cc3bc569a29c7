-- ===== src/ThreadPool/Seeking.antt =====
-- Jobs are neither lost nor doubled by seeking, and a job is found if there is one.
use coop_tasks.Base.{
  ◌%◌, ◌^◌, ℕ, zero, suc, ◌+◌, ◌-◌, ◌≡◌, ◌≢◌, ◌<◌, ◌≤◌, refl, Option, none, some, List, [], ◌∷◌,
  arith, length, length-append, size_max,
}
use coop_tasks.ThreadPool.JobFields.{Job}
use coop_tasks.ThreadPool.Pool.{
  Jobs, Worker, ThreadPool, work_steal, own_dequeue, thr_of, job_seeking, own_enqueue, thrdpool_add,
  max_jobs,
}

-- The jobs in the workers' own queues.
unfoldable pub locals : List Worker → ℕ
locals [] = 0
locals (w ∷ ws) = length w.local_jobs + locals ws

-- All jobs that wait.
unfoldable pub waiting_jobs : ThreadPool → ℕ
waiting_jobs tp = length tp.jobs + locals tp.workers

-- The count is the number of jobs in the local queues, and does not wrap round.
pub record IsCounted (tp : ThreadPool) : Type 0 where
  pub counted : tp.num_local_jobs ≡ locals tp.workers
  pub small : tp.num_local_jobs < size_max - 1

-- No worker's thread is `t`.
abbrev pub Apart : ℕ → List Worker → Type 0
Apart t [] = Unit {0}
Apart t (w ∷ ws) = (w.thr ≢ t) × Apart t ws

-- What a successful or failed look at the local queues leaves.
abbrev pub Less : List Worker → Option (Job × List Worker) → Type 0
Less ws none = Unit {0}
Less ws (some (job, ws')) = locals ws ≡ suc (locals ws')

work_steal-Less : (self : ℕ) (ws : List Worker) → Less ws (work_steal self ws)
unfolding work_steal locals
work_steal-Less self [] = tt
work_steal-Less self (w ∷ ws) = ground (arith, work_steal-Less self ws)

own_dequeue-Less : (i : ℕ) (ws : List Worker) → Less ws (own_dequeue i ws)
unfolding own_dequeue locals
own_dequeue-Less i [] = tt
own_dequeue-Less zero (w ∷ ws) = ground arith
own_dequeue-Less (suc i) (w ∷ ws) = ground (arith, own_dequeue-Less i ws)

-- The other workers' threads are not `t`.
abbrev pub Others : ℕ → ℕ → List Worker → Type 0
Others t i [] = Unit {0}
Others t zero (w ∷ ws) = (w.thr ≡ t) × Apart t ws
Others t (suc i) (w ∷ ws) = (w.thr ≢ t) × Others t i ws

steal-none : (t : ℕ) (ws : List Worker) → Apart t ws → work_steal t ws ≡ none → locals ws ≡ 0
unfolding work_steal locals
steal-none t [] a e = refl
steal-none t (w ∷ ws) a e = ground (arith, steal-none t ws)

-- Neither the own queue nor the others' hold a job, if there is none to take.
none_local :
    (t i : ℕ) (ws : List Worker)
    → Others t i ws
    → own_dequeue i ws ≡ none
    → work_steal t ws ≡ none
    → locals ws ≡ 0
unfolding own_dequeue work_steal locals
none_local t i [] o e f = refl
none_local t zero (w ∷ ws) o e f = ground (arith, steal-none t ws)
none_local t (suc i) (w ∷ ws) o e f = ground (arith, none_local t i ws)

abbrev pub Sought : ThreadPool → Option (Job × ThreadPool) → Type 0
Sought tp none = waiting_jobs tp ≡ 0
Sought tp (some (job, tp')) = IsCounted tp' × (waiting_jobs tp ≡ suc (waiting_jobs tp'))

-- For a worker whose thread is its own and no other worker's, in a pool whose count of local jobs
-- is right and below its bound: `job_seeking` fails only if no queue of the pool holds a job;
-- otherwise one job less waits, and the count is right and below its bound again.
pub job_seeking-Sought :
    (i : ℕ) (tp : ThreadPool)
    → IsCounted tp
    → Others (thr_of i tp.workers) i tp.workers
    → Sought tp (job_seeking i tp)
unfolding job_seeking waiting_jobs
job_seeking-Sought i tp c o = ground (
  arith,
  none_local (thr_of i tp.workers) i tp.workers,
  own_dequeue-Less i tp.workers,
  work_steal-Less (thr_of i tp.workers) tp.workers,
)

abbrev pub More : List Worker → Option (List Worker) → Type 0
More ws none = Unit {0}
More ws (some ws') = locals ws' ≡ suc (locals ws)

own_enqueue-More : (i : ℕ) (job : Job) (ws : List Worker) → More ws (own_enqueue i job ws)
unfolding own_enqueue locals
own_enqueue-More i job [] = tt
own_enqueue-More zero job (w ∷ ws) = ground (arith, length-append w.local_jobs (job ∷ []))
own_enqueue-More (suc i) job (w ∷ ws) = ground (arith, own_enqueue-More i job ws)

-- The jobs of the worker at an index.
abbrev pub jobs_of : ℕ → List Worker → Jobs
jobs_of i [] = []
jobs_of zero (w ∷ ws) = w.local_jobs
jobs_of (suc i) (w ∷ ws) = jobs_of i ws

own_enqueue-full :
    (i : ℕ) (job : Job) (ws : List Worker)
    → i < length ws
    → own_enqueue i job ws ≡ none
    → max_jobs ≤ length (jobs_of i ws)
unfolding own_enqueue
own_enqueue-full i job [] lt e = elim lt [ ]
own_enqueue-full zero job (w ∷ ws) lt e = ground arith
own_enqueue-full (suc i) job (w ∷ ws) lt e = ground (arith, own_enqueue-full i job ws)

-- The queue that a caller adds to: the worker's own, or the pool's.
abbrev pub target : Option ℕ → ThreadPool → Jobs
target none tp = tp.jobs
target (some i) tp = jobs_of i tp.workers

abbrev pub IsCaller : Option ℕ → ThreadPool → Type 0
IsCaller none tp = Unit {0}
IsCaller (some i) tp = i < length tp.workers

abbrev pub Added : Option ℕ → ℕ → ThreadPool → Option ThreadPool × Job × ℕ → Type 0
Added ctx juid tp (none, job', next) =
    (max_jobs ≤ length (target ctx tp)) × (job'.id ≡ juid) × (next ≡ (juid + 1) % 2 ^ 32)
Added ctx juid tp (some tp', job', next) =
    (tp'.num_local_jobs ≡ locals tp'.workers)
    × (waiting_jobs tp' ≡ suc (waiting_jobs tp))
    × (job'.id ≡ juid)
    × (next ≡ (juid + 1) % 2 ^ 32)

-- In a pool whose count of local jobs is right and below its bound, for a caller that is no worker
-- or a worker of this pool: `thrdpool_add` gives the job the next number, and the counter goes on
-- by one, modulo 2 ^ 32; it fails only if the queue for the caller is full, and otherwise one job
-- more waits and the count is right.
pub add-Added :
    (ctx : Option ℕ) (juid : ℕ) (tp : ThreadPool) (job : Job)
    → IsCounted tp
    → IsCaller ctx tp
    → Added ctx juid tp (thrdpool_add ctx juid tp job)
unfolding thrdpool_add waiting_jobs
add-Added none juid tp job c here =
    ground (arith, length-append tp.jobs (record job { id = juid } ∷ []))
add-Added (some i) juid tp job c here = ground (
  arith,
  own_enqueue-More i (record job { id = juid }) tp.workers,
  own_enqueue-full i (record job { id = juid }) tp.workers,
)
