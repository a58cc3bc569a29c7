-- ===== src/ThreadPool/Steps.antt =====
-- The workers of a pool side by side: `worker` of src/thread_pool.c, step by step, and calls of
-- `thrdpool_add` between the steps. What the mutex of the pool guards is one step.
use coop_tasks.Base.{
  ℕ, zero, suc, ◌≡◌, Bool, true, false, Option, none, some, List, [], ◌∷◌, ◌++◌, ◌==◌,
  if◌then◌else◌, length, inc64, dec64, replicate,
}
use coop_tasks.ThreadPool.JobFields.{Job, job_maker}
use coop_tasks.ThreadPool.Pool.{Jobs, Worker, ThreadPool, job_seeking, thrdpool_add}

-- `enum worker_state`
pub data WorkerState : Type 0 where
  init : WorkerState
  idle : WorkerState
  working : WorkerState
  fail : WorkerState

-- Where a worker stands: before its first step, before it locks the mutex, in
-- `pthread_cond_wait`, with a job for which nothing is done yet, and in the job's function.
pub data Phase : Type 0 where
  starting : Phase
  seeking : Phase
  asleep : Phase
  with_job : Job → Phase
  running : Job → Phase

-- The fields of `struct worker` that are not in `Worker`, and the name that was last given to the
-- thread.
pub record Thread : Type 0 where
  pub phase : Phase
  pub status : WorkerState
  pub job : Job
  pub name : List ℕ

-- `WORKER_MAKER`
abbrev pub worker_maker : Thread
worker_maker = record { phase = starting; status = init; job = job_maker none 0; name = [] }

-- The pool, its threads in the order of the workers, `num_active`, and the next job number. The
-- jobs that were put into a queue, and those whose function has returned, are kept in `accepted`
-- and `ran`.
pub record System : Type 0 where
  pub pool : ThreadPool
  pub threads : List Thread
  pub num_active : ℕ
  pub juid : ℕ
  pub accepted : Jobs
  pub ran : Jobs

abbrev pub phase_at : ℕ → List Thread → Option Phase
phase_at i [] = none
phase_at zero (t ∷ ts) = some t.phase
phase_at (suc i) (t ∷ ts) = phase_at i ts

abbrev pub change_at : ℕ → (Thread → Thread) → List Thread → List Thread
change_at i f [] = []
change_at zero f (t ∷ ts) = f t ∷ ts
change_at (suc i) f (t ∷ ts) = t ∷ change_at i f ts

-- `name` is what `snprintf` makes of the worker's number.
abbrev pub started : List ℕ → Thread → Thread
started name t = record t { phase = seeking; status = idle; name = name }

-- `job.name[0] != '\0'`
abbrev pub has_name : List ℕ → Bool
has_name [] = false
has_name (c ∷ cs) = if c == 0 then false else true

abbrev pub took_up : Job → Thread → Thread
took_up job t = record t {
  phase = running job;
  job = job;
  name = if has_name job.name then job.name else t.name;
}

abbrev pub put_down : List ℕ → Job → Thread → Thread
put_down name job t = record t {
  phase = seeking;
  name = if has_name job.name then name else t.name;
}

abbrev pub to_phase : Phase → Thread → Thread
to_phase p t = record t { phase = p }

-- `pthread_cond_broadcast(&self->seek_cnd)`
abbrev pub woken : Phase → Phase
woken asleep = seeking
woken p = p

abbrev pub broadcast : List Thread → List Thread
broadcast [] = []
broadcast (t ∷ ts) = record t { phase = woken t.phase } ∷ broadcast ts

-- One round of `while (job_seeking(self, &job) != 0) pthread_cond_wait(…)` under the mutex.
abbrev pub sought : ℕ → System → Option (Job × ThreadPool) → System
sought i s none = record s { threads = change_at i (to_phase asleep) s.threads }
sought i s (some (job, tp)) = record s {
  pool = tp;
  threads = change_at i (to_phase (with_job job)) s.threads;
}

unfoldable pub seek : ℕ → System → System
seek i s = sought i s (job_seeking i s.pool)

unfoldable pub take_up : ℕ → Job → System → System
take_up i job s = record s {
  threads = change_at i (took_up job) s.threads;
  num_active = inc64 s.num_active;
}

unfoldable pub put_back : List ℕ → ℕ → Job → System → System
put_back name i job s = record s {
  threads = change_at i (put_down name job) s.threads;
  num_active = dec64 s.num_active;
  ran = s.ran ++ job ∷ [];
}

abbrev pub queued : System → Option ThreadPool × Job × ℕ → System
queued s (none, job, juid) = record s { threads = broadcast s.threads; juid = juid }
queued s (some tp, job, juid) = record s {
  pool = tp;
  threads = broadcast s.threads;
  juid = juid;
  accepted = s.accepted ++ job ∷ [];
}

-- A call of `thrdpool_add`, with the mutex.
unfoldable pub add : Option ℕ → Job → System → System
add ctx job s = queued s (thrdpool_add ctx s.juid s.pool job)

-- One step. A call comes from a thread outside the pool, or from a job that a worker runs. A worker
-- that waits may wake without a broadcast.
pub data Step (name : ℕ → List ℕ) (s : System) : System → Type 0 where
  start :
      (i : ℕ)
      → phase_at i s.threads ≡ some starting
      → Step name s (record s { threads = change_at i (started (name i)) s.threads })
  seek_job : (i : ℕ) → phase_at i s.threads ≡ some seeking → Step name s (seek i s)
  wake :
      (i : ℕ)
      → phase_at i s.threads ≡ some asleep
      → Step name s (record s { threads = change_at i (to_phase seeking) s.threads })
  begin_job :
      (i : ℕ) (job : Job)
      → phase_at i s.threads ≡ some (with_job job)
      → Step name s (take_up i job s)
  end_job :
      (i : ℕ) (job : Job)
      → phase_at i s.threads ≡ some (running job)
      → Step name s (put_back (name i) i job s)
  add_outside : (job : Job) → Step name s (add none job s)
  add_inside :
      (i : ℕ) (job own : Job)
      → phase_at i s.threads ≡ some (running own)
      → Step name s (add (some i) job s)

-- The queues that `thrdpool_create` makes are empty, and no worker has started.
abbrev pub empty_workers : List ℕ → List Worker
empty_workers [] = []
empty_workers (t ∷ ts) = record { thr = t; local_jobs = [] } ∷ empty_workers ts

unfoldable pub thread_pool_maker : List ℕ → System
thread_pool_maker ts = record {
  pool = record { jobs = []; num_local_jobs = 0; workers = empty_workers ts };
  threads = replicate (length ts) worker_maker;
  num_active = 0;
  juid = 0;
  accepted = [];
  ran = [];
}

pub data Reach (name : ℕ → List ℕ) (ts : List ℕ) : System → Type 0 where
  at_first : Reach name ts (thread_pool_maker ts)
  then_step : {s t : System} → Reach name ts s → Step name s t → Reach name ts t
