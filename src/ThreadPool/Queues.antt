-- ===== src/ThreadPool/Queues.antt =====
-- The queues of src/thread_pool.c over the queue of src/collections.c, whose items are the bytes of jobs.
use coop_tasks.Base.{
  ℕ, suc, ◌≡◌, refl, ap, subst, sym, Option, none, some, List, [], ◌∷◌, arith, ltb, length, take,
  inl, inr, Bool-cases,
}
use mathlib.Core.List.{map, map-append}
use coop_tasks.Heap.{World}
use coop_tasks.Heap.Returns
use coop_tasks.Heap.Returns.{Returns, returns}
use coop_tasks.Queue.{
  Queue, Represents, Call, enqueue, dequeue, Answer, done, full, empty, item, spec_call, spec_run,
  code_run, LongCalls, Agrees, code_run-Agrees,
}
use coop_tasks.ThreadPool.JobFields.{Job}
use coop_tasks.ThreadPool.Pool.{Jobs, max_jobs, queue_enqueue, queue_dequeue}

-- How the compiler lays a `job_t` out: `sizeof(job_t)` is `n`.
pub record Layout (n : ℕ) : Type 0 where
  pub bytes : Job → List ℕ
  pub length-bytes : (job : Job) → length (bytes job) ≡ n

-- `queue_enqueue(q, job)`, and `queue_dequeue(q, &job)` with what is in `job` before.
pub data JobCall : Type 0 where
  put : Job → JobCall
  get : Job → JobCall

pub data JobAnswer : Type 0 where
  queued : JobAnswer
  no_room : JobAnswer
  no_job : JobAnswer
  got : Job → JobAnswer

-- The calls as the model of the thread pool has them.
abbrev put_answer : Jobs → Option Jobs → JobAnswer × Jobs
put_answer q none = (no_room, q)
put_answer q (some q') = (queued, q')

abbrev get_answer : Jobs → Option (Job × Jobs) → JobAnswer × Jobs
get_answer q none = (no_job, q)
get_answer q (some (job, q')) = (got job, q')

unfoldable pub pool_call : JobCall → Jobs → JobAnswer × Jobs
pool_call (put job) q = put_answer q (queue_enqueue q job)
pool_call (get old) q = get_answer q (queue_dequeue q)

unfoldable pub pool_run : List JobCall → Jobs → List JobAnswer × Jobs
pool_run [] q = ([], q)
pool_run (c ∷ cs) q =
    let (a, q') = pool_call c q in let (as_, q'') = pool_run cs q' in (a ∷ as_, q'')

take-length : (xs : List ℕ) → take (length xs) xs ≡ xs
take-length [] = refl
take-length (x ∷ xs) = rw (take-length xs)

module _ {n : ℕ} (layout : Layout n) where
  abbrev pub call_of : JobCall → Call
  call_of (put job) = enqueue (layout.bytes job)
  call_of (get old) = dequeue (layout.bytes old)

  abbrev pub answer_of : JobAnswer → Answer
  answer_of queued = done
  answer_of no_room = full
  answer_of no_job = empty
  answer_of (got job) = item (layout.bytes job)

  length-map-bytes : (q : Jobs) → length (map layout.bytes q) ≡ length q
  length-map-bytes [] = refl
  length-map-bytes (job ∷ q) = ap suc (length-map-bytes q)

  take-bytes : (job : Job) → take n (layout.bytes job) ≡ layout.bytes job
  take-bytes job =
      subst (λ k. take k (layout.bytes job) ≡ layout.bytes job) (layout.length-bytes job)
        (take-length (layout.bytes job))

  spec-pool_call :
      (c : JobCall) (q : Jobs)
      → spec_call n max_jobs (call_of c) (map layout.bytes q)
        ≡ (answer_of (pool_call c q).0, map layout.bytes (pool_call c q).1)
  unfolding spec_call pool_call
  spec-pool_call (put job) q =
      rw (length-map-bytes q) (elim (Bool-cases (ltb (length q) max_jobs)) [
        | inl room ↦
            rw (room, take-bytes job)
              (ap (λ items. (done, items)) (sym (map-append layout.bytes q (job ∷ []))))
        | inr none_ ↦ rw none_ refl
      ])
  spec-pool_call (get old) [] = refl
  spec-pool_call (get old) (job ∷ q) = refl

  spec-pool_run :
      (cs : List JobCall) (q : Jobs)
      → spec_run n max_jobs (map call_of cs) (map layout.bytes q)
        ≡ (map answer_of (pool_run cs q).0, map layout.bytes (pool_run cs q).1)
  unfolding spec_run pool_run
  spec-pool_run [] q = refl
  spec-pool_run (c ∷ cs) q = rw (spec-pool_call c q, spec-pool_run cs (pool_call c q).1) refl

  bytes-LongCalls : (cs : List JobCall) → LongCalls n (map call_of cs)
  bytes-LongCalls [] = tt
  bytes-LongCalls (put job ∷ cs) = (ground (arith, layout.length-bytes job), bytes-LongCalls cs)
  bytes-LongCalls (get job ∷ cs) = (ground (arith, layout.length-bytes job), bytes-LongCalls cs)

  -- The code answers with the bytes of the jobs, and its queue holds those of the jobs that wait.
  abbrev pub Serves : List JobAnswer × Jobs → List Answer × Option Queue → World → Type 0
  Serves (as_, q) (bs, o) w =
      (self : Queue) × (o ≡ some self)
      × (bs ≡ map answer_of as_)
      × Represents w self n max_jobs (map layout.bytes q)

  -- If a job has `n` bytes, and a queue of src/collections.c that was made for 32 items of `n` bytes
  -- holds the bytes of the jobs `q`: every sequence of calls that put a job or take one ends,
  -- without a fault and within its fuel, with the answers that the bounded list of jobs gives, each
  -- job as its bytes, and the queue then holds the bytes of the jobs that this list does; whatever
  -- compare-exchanges fail spuriously.
  pub pool_run-Serves :
      (cs : List JobCall) {w : World} {self : Queue} (q : Jobs)
      → Represents w self n max_jobs (map layout.bytes q)
      → Returns (Serves (pool_run cs q)) (code_run n (map call_of cs) (some self) w)
  pool_run-Serves cs {self} q r =
      Returns.mono (code_run-Agrees (map call_of cs) r (bytes-LongCalls cs))
        λ (bs, o) v agrees. subst (λ p. Agrees n max_jobs p (bs, o) v) (spec-pool_run cs q) agrees
