-- ===== src/ThreadPool/Weights.antt =====
-- What the queues of a pool hold, by a weight of jobs: seeking takes the job that it returns, and
-- adding adds the one that it is given.
use coop_tasks.Base.{
  ℕ, zero, suc, ◌+◌, ◌*◌, ◌≡◌, ◌≤◌, Option, none, some, List, [], ◌∷◌, ◌++◌, arith, length,
  length-append,
}
use coop_tasks.ThreadPool.JobFields.{Job}
use coop_tasks.ThreadPool.Pool.{Jobs, Worker, work_steal, own_dequeue, own_enqueue, max_jobs}
use coop_tasks.ThreadPool.Seeking.{locals}

-- The sum of a weight over jobs, and over the workers' own queues.
unfoldable pub weigh : (Job → ℕ) → Jobs → ℕ
weigh f [] = 0
weigh f (job ∷ q) = f job + weigh f q

unfoldable pub weigh_locals : (Job → ℕ) → List Worker → ℕ
weigh_locals f [] = 0
weigh_locals f (w ∷ ws) = weigh f w.local_jobs + weigh_locals f ws

unfoldable pub thrs : List Worker → List ℕ
thrs [] = []
thrs (w ∷ ws) = w.thr ∷ thrs ws

-- No worker's queue has more than its jobs.
abbrev pub Short : List Worker → Type 0
Short [] = Unit {0}
Short (w ∷ ws) = (length w.local_jobs ≤ max_jobs) × Short ws

pub weigh-append : (f : Job → ℕ) (q r : Jobs) → weigh f (q ++ r) ≡ weigh f q + weigh f r
unfolding weigh
weigh-append f [] r = omega arith
weigh-append f (job ∷ q) r = omega (arith, weigh-append f q r)

pub locals-Short : (ws : List Worker) → Short ws → locals ws ≤ max_jobs * length ws
unfolding locals
locals-Short [] s = omega arith
locals-Short (w ∷ ws) s = omega (arith, s.0, locals-Short ws s.1)

-- A job was taken from the queues.
abbrev pub Taken : (Job → ℕ) → List Worker → Option (Job × List Worker) → Type 0
Taken f ws none = Unit {0}
Taken f ws (some (job, ws')) =
    (weigh_locals f ws ≡ f job + weigh_locals f ws') × (thrs ws' ≡ thrs ws) × (Short ws → Short ws')

-- A job was put into them.
abbrev pub Given : (Job → ℕ) → Job → List Worker → Option (List Worker) → Type 0
Given f job ws none = Unit {0}
Given f job ws (some ws') =
    (weigh_locals f ws' ≡ f job + weigh_locals f ws) × (thrs ws' ≡ thrs ws) × (Short ws → Short ws')

pub work_steal-Taken : (f : Job → ℕ) (self : ℕ) (ws : List Worker) → Taken f ws (work_steal self ws)
unfolding work_steal weigh_locals weigh thrs
work_steal-Taken f self [] = tt
work_steal-Taken f self (w ∷ ws) = ground (arith, work_steal-Taken f self ws)

pub own_dequeue-Taken : (f : Job → ℕ) (i : ℕ) (ws : List Worker) → Taken f ws (own_dequeue i ws)
unfolding own_dequeue weigh_locals weigh thrs
own_dequeue-Taken f i [] = tt
own_dequeue-Taken f zero (w ∷ ws) = ground arith
own_dequeue-Taken f (suc i) (w ∷ ws) = ground (arith, own_dequeue-Taken f i ws)

pub own_enqueue-Given :
    (f : Job → ℕ) (i : ℕ) (job : Job) (ws : List Worker) → Given f job ws (own_enqueue i job ws)
unfolding own_enqueue weigh_locals weigh thrs
own_enqueue-Given f i job [] = tt
own_enqueue-Given f zero job (w ∷ ws) =
    ground (arith, weigh-append f w.local_jobs (job ∷ []), length-append w.local_jobs (job ∷ []))
own_enqueue-Given f (suc i) job (w ∷ ws) = ground (arith, own_enqueue-Given f i job ws)
