-- ===== src/ThreadPool/Runs.antt =====
-- What holds of a pool and its workers however their steps interleave.
use coop_tasks.Base.{
  ℕ, zero, suc, ◌+◌, ◌*◌, ◌-◌, ◌≡◌, ◌≢◌, ◌<◌, ◌≤◌, ◌⊎◌, refl, sym, ap, subst, ◌∙◌, Option, none,
  some, List, [], ◌∷◌, arith, length, replicate, length-replicate, size_max, inl, inr, Option-cases,
}
use coop_tasks.ThreadPool.JobFields.{Job}
use coop_tasks.ThreadPool.Pool.{Worker, ThreadPool, job_seeking, thrdpool_add, max_jobs}
use coop_tasks.ThreadPool.Seeking.{
  locals, waiting_jobs, IsCounted, Sought, job_seeking-Sought, IsCaller, Added, add-Added,
}
use coop_tasks.ThreadPool.Weights.{weigh, weigh_locals, weigh-append, thrs, Short, locals-Short}
use coop_tasks.ThreadPool.Steps.{
  Phase, starting, seeking, asleep, with_job, running, Thread, System, phase_at, change_at, started,
  took_up, put_down, to_phase, seek, sought, take_up, put_back, queued, add, Step, start, seek_job,
  wake, begin_job, end_job, add_outside, add_inside, worker_maker, thread_pool_maker, empty_workers,
  Reach, at_first, then_step,
}
use coop_tasks.ThreadPool.Kept.{
  total, held, sleeps, runs, total-change, length-change, length-broadcast, phase_at-lt,
  total-broadcast, held-woken, runs-woken, sleeps-broadcast, runs-le, Unique, Unique-Others,
  weigh_pool, Left, Came, job_seeking-Left, add-Came,
}

-- The invariant, for workers with the threads `ts`.
pub record Inv (ts : List ℕ) (s : System) : Type 0 where
  pub kept :
      (f : Job → ℕ)
      → weigh f s.accepted ≡ weigh_pool f s.pool + total (held f) s.threads + weigh f s.ran
  pub awake : (total sleeps s.threads ≡ 0) ⊎ (waiting_jobs s.pool ≡ 0)
  pub active : s.num_active ≡ total runs s.threads
  pub counted : s.pool.num_local_jobs ≡ locals s.pool.workers
  pub short : Short s.pool.workers
  pub same : thrs s.pool.workers ≡ ts
  pub size : length s.threads ≡ length ts

length-thrs : (ws : List Worker) → length (thrs ws) ≡ length ws
unfolding thrs
length-thrs [] = refl
length-thrs (w ∷ ws) = omega (arith, length-thrs ws)

module _ (ts : List ℕ) (unique : Unique ts) (few : max_jobs * length ts < size_max - 1)
    (name : ℕ → List ℕ) {s : System} (inv : Inv ts s) where
  inv-IsCounted : IsCounted s.pool
  inv-IsCounted = record {
    counted = inv.counted;
    small = omega (
      arith,
      few,
      inv.counted,
      locals-Short s.pool.workers inv.short,
      length-thrs s.pool.workers,
      ap length inv.same,
    );
  }

  module _ (i : ℕ) (p : Phase) (at : phase_at i s.threads ≡ some p) where
    is_worker : i < length s.pool.workers
    is_worker = omega (
      arith,
      phase_at-lt i s.threads p at,
      inv.size,
      length-thrs s.pool.workers,
      ap length inv.same,
    )

    -- A worker's own change, which keeps what it holds and whether it runs a job.
    moved :
        (h : Thread → Thread) (p' : Phase)
        → ((t : Thread) → (h t).phase ≡ p')
        → ((f : Job → ℕ) → held f p' ≡ held f p)
        → runs p' ≡ runs p
        → sleeps p' ≡ 0
        → Inv ts (record s { threads = change_at i h s.threads })
    moved h p' new same same_runs up = record {
      kept =
          λ f. omega (arith, inv.kept f, total-change (held f) i h s.threads p p' at new, same f);
      awake = elim inv.awake [
        | inl all_up ↦
            inl (omega (arith, all_up, total-change sleeps i h s.threads p p' at new, up))
        | inr no_job ↦ inr no_job
      ];
      active = omega (arith, inv.active, total-change runs i h s.threads p p' at new, same_runs);
      counted = inv.counted;
      short = inv.short;
      same = inv.same;
      size = length-change i h s.threads ∙ inv.size;
    }

    sought-Inv :
        (o : Option (Job × ThreadPool))
        → p ≡ seeking
        → Sought s.pool o
        → ((f : Job → ℕ) → Left f s.pool o)
        → Inv ts (sought i s o)
    sought-Inv none is no_job left = record {
      kept = λ f. omega (
        arith,
        inv.kept f,
        total-change (held f) i (to_phase asleep) s.threads p asleep at (λ t. refl),
        ap (held f) is,
      );
      awake = inr no_job;
      active = omega (
        arith,
        inv.active,
        total-change runs i (to_phase asleep) s.threads p asleep at (λ t. refl),
        ap runs is,
      );
      counted = inv.counted;
      short = inv.short;
      same = inv.same;
      size = length-change i (to_phase asleep) s.threads ∙ inv.size;
    }
    sought-Inv (some (job, tp)) is (counted, less) left =
        let h = to_phase (with_job job) in
        record {
          kept = λ f. omega (
            arith,
            inv.kept f,
            total-change (held f) i h s.threads p (with_job job) at (λ t. refl),
            ap (held f) is,
            (left f).0,
          );
          awake = elim inv.awake [
            | inl all_up ↦ inl (
                omega (
                  arith,
                  all_up,
                  total-change sleeps i h s.threads p (with_job job) at (λ t. refl),
                ))
            | inr no_job ↦ absurd (omega (arith, no_job, less))
          ];
          active = omega (
            arith,
            inv.active,
            total-change runs i h s.threads p (with_job job) at (λ t. refl),
            ap runs is,
          );
          counted = counted.counted;
          short = (left (λ _. 0)).2 inv.short;
          same = (left (λ _. 0)).1 ∙ inv.same;
          size = length-change i h s.threads ∙ inv.size;
        }

    -- A worker that looks for a job finds one, or there is none.
    pub seeking-Sought : Sought s.pool (job_seeking i s.pool)
    seeking-Sought =
        job_seeking-Sought i s.pool inv-IsCounted
          (Unique-Others i s.pool.workers is_worker (subst Unique (sym inv.same) unique))

    seek-Inv : p ≡ seeking → Inv ts (seek i s)
    unfolding seek
    seek-Inv is =
        sought-Inv (job_seeking i s.pool) is seeking-Sought (λ f. job_seeking-Left f i s.pool)

    take_up-Inv : (job : Job) → p ≡ with_job job → Inv ts (take_up i job s)
    unfolding take_up
    take_up-Inv job is =
        let change = total-change runs i (took_up job) s.threads p (running job) at (λ t. refl) in
        record {
          kept = λ f. omega (
            arith,
            inv.kept f,
            total-change (held f) i (took_up job) s.threads p (running job) at (λ t. refl),
            ap (held f) is,
          );
          awake = elim inv.awake [
            | inl all_up ↦ inl (
                omega (
                  arith,
                  all_up,
                  total-change sleeps i (took_up job) s.threads p (running job) at (λ t. refl),
                ))
            | inr no_job ↦ inr no_job
          ];
          active = omega (arith, inv.active, change, ap runs is, few, inv.size, runs-le s.threads);
          counted = inv.counted;
          short = inv.short;
          same = inv.same;
          size = length-change i (took_up job) s.threads ∙ inv.size;
        }

    put_back-Inv : (job : Job) → p ≡ running job → Inv ts (put_back (name i) i job s)
    unfolding put_back weigh
    put_back-Inv job is =
        let h = put_down (name i) job in
        let change = total-change runs i h s.threads p seeking at (λ t. refl) in
        record {
          kept = λ f. omega (
            arith,
            inv.kept f,
            total-change (held f) i h s.threads p seeking at (λ t. refl),
            ap (held f) is,
            weigh-append f s.ran (job ∷ []),
          );
          awake = elim inv.awake [
            | inl all_up ↦
                inl (
                  omega (arith, all_up, total-change sleeps i h s.threads p seeking at (λ t. refl)))
            | inr no_job ↦ inr no_job
          ];
          active = omega (arith, inv.active, change, ap runs is, few, inv.size, runs-le s.threads);
          counted = inv.counted;
          short = inv.short;
          same = inv.same;
          size = length-change i h s.threads ∙ inv.size;
        }

  queued-Inv :
      (ctx : Option ℕ) (r : Option ThreadPool × Job × ℕ)
      → Added ctx s.juid s.pool r
      → ((f : Job → ℕ) → Came f s.pool r)
      → Inv ts (queued s r)
  unfolding weigh
  queued-Inv ctx (none, job, juid) added came = record {
    kept = λ f. omega (arith, inv.kept f, total-broadcast (held f) s.threads (held-woken f));
    awake = inl (sleeps-broadcast s.threads);
    active = omega (arith, inv.active, total-broadcast runs s.threads runs-woken);
    counted = inv.counted;
    short = inv.short;
    same = inv.same;
    size = length-broadcast s.threads ∙ inv.size;
  }
  queued-Inv ctx (some tp, job, juid) added came = record {
    kept = λ f. omega (
      arith,
      inv.kept f,
      total-broadcast (held f) s.threads (held-woken f),
      (came f).0,
      weigh-append f s.accepted (job ∷ []),
    );
    awake = inl (sleeps-broadcast s.threads);
    active = omega (arith, inv.active, total-broadcast runs s.threads runs-woken);
    counted = added.0;
    short = (came (λ _. 0)).2 inv.short;
    same = (came (λ _. 0)).1 ∙ inv.same;
    size = length-broadcast s.threads ∙ inv.size;
  }

  add-Inv : (ctx : Option ℕ) (job : Job) → IsCaller ctx s.pool → Inv ts (add ctx job s)
  unfolding add
  add-Inv ctx job here =
      queued-Inv ctx (thrdpool_add ctx s.juid s.pool job)
        (add-Added ctx s.juid s.pool job inv-IsCounted here) (λ f. add-Came f ctx s.juid s.pool job)

total-replicate : (g : Phase → ℕ) (n : ℕ) (t : Thread) → g t.phase ≡ 0 → total g (replicate n t) ≡ 0
unfolding total
total-replicate g zero t none_ = refl
total-replicate g (suc n) t none_ = omega (arith, none_, total-replicate g n t none_)

weigh_locals-empty : (f : Job → ℕ) (ts : List ℕ) → weigh_locals f (empty_workers ts) ≡ 0
unfolding weigh_locals weigh
weigh_locals-empty f [] = refl
weigh_locals-empty f (t ∷ ts) = omega (arith, weigh_locals-empty f ts)

locals-empty : (ts : List ℕ) → locals (empty_workers ts) ≡ 0
unfolding locals
locals-empty [] = refl
locals-empty (t ∷ ts) = omega (arith, locals-empty ts)

thrs-empty : (ts : List ℕ) → thrs (empty_workers ts) ≡ ts
unfolding thrs
thrs-empty [] = refl
thrs-empty (t ∷ ts) = ap (λ l. t ∷ l) (thrs-empty ts)

empty-Short : (ts : List ℕ) → Short (empty_workers ts)
empty-Short [] = tt
empty-Short (t ∷ ts) = (omega arith, empty-Short ts)

total-at :
    (g : Phase → ℕ) (i : ℕ) (ts : List Thread) (p : Phase)
    → phase_at i ts ≡ some p
    → g p ≤ total g ts
unfolding total
total-at g i [] p at = ground arith
total-at g zero (t ∷ ts) p at = let is : t.phase ≡ p = cc in omega (arith, ap g is)
total-at g (suc i) (t ∷ ts) p at = omega (arith, total-at g i ts p at)

-- A worker that has started, and has no job.
pub data IsFree : Phase → Type 0 where
  looks : IsFree seeking
  waits : IsFree asleep

module _ (ts : List ℕ) (unique : Unique ts) (few : max_jobs * length ts < size_max - 1)
    (name : ℕ → List ℕ) where
  Step-Inv : {s t : System} → Step name s t → Inv ts s → Inv ts t
  Step-Inv (start i at) inv =
      moved ts unique few name inv i starting at (started (name i)) seeking (λ t. refl) (λ f. refl)
        refl refl
  Step-Inv (seek_job i at) inv = seek-Inv ts unique few name inv i seeking at refl
  Step-Inv (wake i at) inv =
      moved ts unique few name inv i asleep at (to_phase seeking) seeking (λ t. refl) (λ f. refl)
        refl refl
  Step-Inv (begin_job i job at) inv =
      take_up-Inv ts unique few name inv i (with_job job) at job refl
  Step-Inv (end_job i job at) inv = put_back-Inv ts unique few name inv i (running job) at job refl
  Step-Inv (add_outside job) inv = add-Inv ts unique few name inv none job tt
  Step-Inv (add_inside i job own at) inv =
      add-Inv ts unique few name inv (some i) job
        (is_worker ts unique few name inv i (running own) at)

  maker-Inv : Inv ts (thread_pool_maker ts)
  unfolding thread_pool_maker weigh weigh_pool waiting_jobs
  maker-Inv = record {
    kept = λ f.
        omega
          (arith, weigh_locals-empty f ts, total-replicate (held f) (length ts) worker_maker refl);
    awake = inr (omega (arith, locals-empty ts));
    active = sym (total-replicate runs (length ts) worker_maker refl);
    counted = sym (locals-empty ts);
    short = empty-Short ts;
    same = thrs-empty ts;
    size = length-replicate (length ts) worker_maker;
  }

  Reach-Inv : {s : System} → Reach name ts s → Inv ts s
  Reach-Inv at_first = maker-Inv
  Reach-Inv (then_step r st) = Step-Inv st (Reach-Inv r)

  -- For workers with different threads, as few as their count of jobs can count, however the steps
  -- interleave: whatever is added up over jobs, the sum over those that `thrdpool_add` accepted is
  -- the sum over those that are queued, those that the workers have, and those that ran. No job is
  -- lost, and none runs twice.
  pub jobs_kept :
      {s : System}
      → Reach name ts s
      → (f : Job → ℕ)
      → weigh f s.accepted
        ≡ weigh f s.pool.jobs
          + weigh_locals f s.pool.workers
          + total (held f) s.threads
          + weigh f s.ran
  unfolding weigh_pool
  jobs_kept r f = omega (arith, (Reach-Inv r).kept f)

  -- For workers with different threads, as few as their count of jobs can count, however the steps
  -- interleave, `num_active` is the number of workers that run a job, and `num_local_jobs` the
  -- number of jobs in the workers' own queues.
  pub counts_right :
      {s : System}
      → Reach name ts s
      → (s.num_active ≡ total runs s.threads) × (s.pool.num_local_jobs ≡ locals s.pool.workers)
  counts_right r = ((Reach-Inv r).active, (Reach-Inv r).counted)

  -- For workers with different threads, as few as their count of jobs can count, however the steps
  -- interleave: while a job is queued, a worker that has started and has no job is not asleep, and
  -- its next look at the queues takes a job.
  pub job_seeking-finds :
      {s : System}
      → Reach name ts s
      → waiting_jobs s.pool ≢ 0
      → (i : ℕ) (p : Phase) → phase_at i s.threads ≡ some p
      → IsFree p
      → (phase_at i s.threads ≡ some seeking)
        × ((job : Job) × (tp : ThreadPool) × (job_seeking i s.pool ≡ some (job, tp)))
  job_seeking-finds {s} r some_job i p at waits = elim (Reach-Inv r).awake [
    | inl all_up ↦ absurd (omega (arith, all_up, total-at sleeps i s.threads asleep at))
    | inr no_job ↦ absurd (some_job no_job)
  ]
  job_seeking-finds {s} r some_job i p at looks = elim (Option-cases (job_seeking i s.pool)) [
    | inl nothing ↦ absurd (
        some_job (
          subst (Sought s.pool) nothing
            (seeking-Sought ts unique few name (Reach-Inv r) i seeking at)))
    | inr ((job, tp), found) ↦ (at, (job, tp, found))
  ]
