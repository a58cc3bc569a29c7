-- ===== src/ThreadPool/Kept.antt =====
-- The sums over the threads of a pool, and what one look at the queues and one call of
-- `thrdpool_add` do to the weight of the jobs.
use coop_tasks.Base.{
  ℕ, zero, suc, ◌+◌, ◌≡◌, ◌<◌, ◌≤◌, ◌∈◌, ◌∉◌, refl, ap, Option, none, some, List, [], ◌∷◌, arith,
  length,
}
use coop_tasks.ThreadPool.JobFields.{Job}
use coop_tasks.ThreadPool.Pool.{Worker, ThreadPool, job_seeking, thrdpool_add, thr_of}
use coop_tasks.ThreadPool.Seeking.{Others, Apart}
use coop_tasks.ThreadPool.Weights.{
  weigh, weigh_locals, thrs, Short, work_steal-Taken, own_dequeue-Taken, own_enqueue-Given,
  weigh-append,
}
use coop_tasks.ThreadPool.Steps.{
  Phase, starting, seeking, asleep, with_job, running, Thread, phase_at, change_at, woken,
  broadcast,
}

-- The sum of a number of each thread's phase.
unfoldable pub total : (Phase → ℕ) → List Thread → ℕ
total g [] = 0
total g (t ∷ ts) = g t.phase + total g ts

-- The weight of the job that a worker has.
abbrev pub held : (Job → ℕ) → Phase → ℕ
held f (with_job job) = f job
held f (running job) = f job
held f _ = 0

abbrev pub sleeps : Phase → ℕ
sleeps asleep = 1
sleeps _ = 0

abbrev pub runs : Phase → ℕ
runs (running job) = 1
runs _ = 0

pub total-change :
    (g : Phase → ℕ) (i : ℕ) (h : Thread → Thread) (ts : List Thread) (p p' : Phase)
    → phase_at i ts ≡ some p
    → ((t : Thread) → (h t).phase ≡ p')
    → total g (change_at i h ts) + g p ≡ total g ts + g p'
unfolding total
total-change g i h [] p p' at new = ground arith
total-change g zero h (t ∷ ts) p p' at new =
    let is : t.phase ≡ p = cc in omega (arith, ap g is, ap g (new t))
total-change g (suc i) h (t ∷ ts) p p' at new = omega (arith, total-change g i h ts p p' at new)

pub length-change :
    (i : ℕ) (h : Thread → Thread) (ts : List Thread) → length (change_at i h ts) ≡ length ts
length-change i h [] = refl
length-change zero h (t ∷ ts) = refl
length-change (suc i) h (t ∷ ts) = omega (arith, length-change i h ts)

pub length-broadcast : (ts : List Thread) → length (broadcast ts) ≡ length ts
length-broadcast [] = refl
length-broadcast (t ∷ ts) = omega (arith, length-broadcast ts)

pub phase_at-lt : (i : ℕ) (ts : List Thread) (p : Phase) → phase_at i ts ≡ some p → i < length ts
phase_at-lt i [] p at = ground arith
phase_at-lt zero (t ∷ ts) p at = omega arith
phase_at-lt (suc i) (t ∷ ts) p at = omega (arith, phase_at-lt i ts p at)

-- A broadcast leaves what is the same for a worker that waits and one that is woken.
pub total-broadcast :
    (g : Phase → ℕ) (ts : List Thread)
    → ((p : Phase) → g (woken p) ≡ g p)
    → total g (broadcast ts) ≡ total g ts
unfolding total
total-broadcast g [] same = refl
total-broadcast g (t ∷ ts) same = omega (arith, same t.phase, total-broadcast g ts same)

pub held-woken : (f : Job → ℕ) (p : Phase) → held f (woken p) ≡ held f p
held-woken f starting = refl
held-woken f seeking = refl
held-woken f asleep = refl
held-woken f (with_job job) = refl
held-woken f (running job) = refl

pub runs-woken : (p : Phase) → runs (woken p) ≡ runs p
runs-woken starting = refl
runs-woken seeking = refl
runs-woken asleep = refl
runs-woken (with_job job) = refl
runs-woken (running job) = refl

sleeps-woken : (p : Phase) → sleeps (woken p) ≡ 0
sleeps-woken starting = refl
sleeps-woken seeking = refl
sleeps-woken asleep = refl
sleeps-woken (with_job job) = refl
sleeps-woken (running job) = refl

pub sleeps-broadcast : (ts : List Thread) → total sleeps (broadcast ts) ≡ 0
unfolding total
sleeps-broadcast [] = refl
sleeps-broadcast (t ∷ ts) = omega (arith, sleeps-woken t.phase, sleeps-broadcast ts)

pub runs-le : (ts : List Thread) → total runs ts ≤ length ts
unfolding total
runs-le [] = omega arith
runs-le (t ∷ ts) = ground (arith, runs-le ts)

-- No two are the same.
abbrev pub Unique : List ℕ → Type 0
Unique [] = Unit {0}
Unique (t ∷ ts) = (t ∉ ts) × Unique ts

Unique-Apart : (t : ℕ) (ws : List Worker) → t ∉ thrs ws → Apart t ws
unfolding thrs
Unique-Apart t [] apart = tt
Unique-Apart t (w ∷ ws) apart = ground (arith, Unique-Apart t ws)

thr_of-mem : (i : ℕ) (ws : List Worker) → i < length ws → thr_of i ws ∈ thrs ws
unfolding thrs
thr_of-mem i [] lt = elim lt [ ]
thr_of-mem zero (w ∷ ws) lt = ground arith
thr_of-mem (suc i) (w ∷ ws) lt = ground (arith, thr_of-mem i ws)

pub Unique-Others :
    (i : ℕ) (ws : List Worker) → i < length ws → Unique (thrs ws) → Others (thr_of i ws) i ws
unfolding thrs
Unique-Others i [] lt u = tt
Unique-Others zero (w ∷ ws) lt u = (refl, Unique-Apart w.thr ws u.0)
Unique-Others (suc i) (w ∷ ws) lt u =
    (ground (arith, thr_of-mem i ws), Unique-Others i ws (omega arith) u.1)

-- The weight of the jobs in all queues.
unfoldable pub weigh_pool : (Job → ℕ) → ThreadPool → ℕ
weigh_pool f tp = weigh f tp.jobs + weigh_locals f tp.workers

-- A job left the pool, or came to it.
abbrev pub Left : (Job → ℕ) → ThreadPool → Option (Job × ThreadPool) → Type 0
Left f tp none = Unit {0}
Left f tp (some (job, tp')) =
    (weigh_pool f tp ≡ f job + weigh_pool f tp')
    × (thrs tp'.workers ≡ thrs tp.workers)
    × (Short tp.workers → Short tp'.workers)

abbrev pub Came : (Job → ℕ) → ThreadPool → Option ThreadPool × Job × ℕ → Type 0
Came f tp (none, job, juid) = Unit {0}
Came f tp (some tp', job, juid) =
    (weigh_pool f tp' ≡ f job + weigh_pool f tp)
    × (thrs tp'.workers ≡ thrs tp.workers)
    × (Short tp.workers → Short tp'.workers)

pub job_seeking-Left : (f : Job → ℕ) (i : ℕ) (tp : ThreadPool) → Left f tp (job_seeking i tp)
unfolding job_seeking weigh_pool weigh
job_seeking-Left f i tp =
    ground
      (arith, own_dequeue-Taken f i tp.workers, work_steal-Taken f (thr_of i tp.workers) tp.workers)

pub add-Came :
    (f : Job → ℕ) (ctx : Option ℕ) (juid : ℕ) (tp : ThreadPool) (job : Job)
    → Came f tp (thrdpool_add ctx juid tp job)
unfolding thrdpool_add weigh_pool weigh
add-Came f none juid tp job = ground (arith, weigh-append f tp.jobs (record job { id = juid } ∷ []))
add-Came f (some i) juid tp job =
    ground (arith, own_enqueue-Given f i (record job { id = juid }) tp.workers)
