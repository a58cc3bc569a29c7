-- ===== src/ThreadPool/JobFields.antt =====
-- The jobs of src/thread_pool.c, the runnables of src/tasks.c, and what sets their fields.
use coop_tasks.Base.{
  ℕ, ◌-◌, ◌≡◌, ◌≤◌, refl, Bool, false, Option, none, some, List, [], ◌∷◌, ◌++◌, arith, length, take,
  drop, replicate, length-append, take-append, drop-append,
}

abbrev pub einval : ℕ
einval = 22

-- `JOB_NAME_MAX`
abbrev pub job_name_max : ℕ
job_name_max = 32

-- `struct job`. A function pointer that may be NULL is an `Option`, a function and its argument are
-- the numbers of their addresses, and a name is its 32 bytes.
pub record Job : Type 0 where
  pub id : ℕ
  pub start_time : ℕ
  pub end_time : ℕ
  pub func : Option ℕ
  pub arg : ℕ
  pub name : List ℕ
  pub waitable : Bool

-- `JOB_MAKER`
abbrev pub job_maker : Option ℕ → ℕ → Job
job_maker f a = record {
  id = 0;
  start_time = 0;
  end_time = 0;
  func = f;
  arg = a;
  name = replicate job_name_max 0;
  waitable = false;
}

-- A job that was changed, or the error number.
pub data Changed (A : Type 0) : Type 0 where
  changed : A → Changed A
  rejected : ℕ → Changed A

unfoldable pub thrdpool_job_init : Option Job → Option ℕ → ℕ → Changed Job
thrdpool_job_init none func arg = rejected einval
thrdpool_job_init (some job) none arg = rejected einval
thrdpool_job_init (some job) (some func) arg = changed (job_maker (some func) arg)

-- `strncpy(dst, src, n)`: `src` is a string without its final zero. It copies `n` bytes at most,
-- fills up with zeros, and leaves what is behind in `dst`.
unfoldable pub strncpy : (dst src : List ℕ) → ℕ → List ℕ
strncpy dst src n = take n (src ++ replicate n 0) ++ drop n dst

unfoldable pub thrdpool_job_set_name : Option Job → Option (List ℕ) → Changed Job
thrdpool_job_set_name none name = rejected einval
thrdpool_job_set_name (some job) name = elim job.func [
  | none ↦ rejected einval
  | some f ↦ elim name [
    | none ↦ rejected einval
    | some text ↦ changed (record job { name = strncpy job.name text (job_name_max - 1) })
  ]
]

unfoldable pub thrdpool_job_set_waitable : Option Job → Bool → Changed Job
thrdpool_job_set_waitable none waitable = rejected einval
thrdpool_job_set_waitable (some job) waitable = elim job.func [
  | none ↦ rejected einval
  | some f ↦ changed (record job { waitable = waitable })
]

-- `struct runnable` of include/tasks.h; the name is a pointer that may be NULL.
pub record Runnable : Type 0 where
  pub tuid : ℕ
  pub func : Option ℕ
  pub arg : ℕ
  pub name : Option (List ℕ)

unfoldable pub tasks_runnable_init : Option Runnable → Option ℕ → ℕ → Changed Runnable
tasks_runnable_init none func arg = rejected einval
tasks_runnable_init (some rnbl) none arg = rejected einval
tasks_runnable_init (some rnbl) (some func) arg =
    changed (record { tuid = 0; func = some func; arg = arg; name = none })

unfoldable pub tasks_runnable_set_name : Option Runnable → Option (List ℕ) → Changed Runnable
tasks_runnable_set_name none name = rejected einval
tasks_runnable_set_name (some rnbl) none = rejected einval
tasks_runnable_set_name (some rnbl) (some text) = changed (record rnbl { name = some text })

-- Initialising a job and then naming it succeeds, whatever the name: its first 31 bytes are kept,
-- padded with zeros, the last byte of the field is a zero, and the function and the argument are
-- those of the initialisation.
pub init-set_name :
    (old : Job) (f a : ℕ) (text : List ℕ)
    → (job : Job) × (named : Job) × (thrdpool_job_init (some old) (some f) a ≡ changed job)
      × (thrdpool_job_set_name (some job) (some text) ≡ changed named)
      × (take 31 named.name ≡ take 31 (text ++ replicate 31 0))
      × (drop 31 named.name ≡ 0 ∷ [])
      × (named.func ≡ some f)
      × (named.arg ≡ a)
unfolding thrdpool_job_init thrdpool_job_set_name strncpy
init-set_name old f a text =
    let long : 31 ≤ length (text ++ replicate 31 0) =
      omega (arith, length-append text (replicate 31 0)) in
    (
      job_maker (some f) a,
      _,
      refl,
      refl,
      take-append 31 (text ++ replicate 31 0) _ long,
      drop-append 31 (text ++ replicate 31 0) _ long,
      refl,
      refl,
    )
