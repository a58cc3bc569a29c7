-- ===== src/Threads/Suspend.antt =====
-- thrd_suspend, thrd_resume and internal_signaled of src/threads_posix.c, for any number of threads: the
-- signal SIGURG of a thread is pending or not, and a thread that handles it waits for its semaphore.
use coop_tasks.Base.{
  ℕ, zero, suc, ◌+◌, ◌≤◌, ◌≡◌, ◌≢◌, refl, ap, subst, Bool, Option, none, some, true, false, arith,
  ◌==◌, if◌then◌else◌, inl, inr, Bool-cases,
}
use coop_tasks.Heap.{enoent}

pub data Phase : Type 0 where
  running : Phase
  -- in internal_signaled, before `sem_wait(suspend)` is through
  handling : Phase
  -- after `sem_wait(NULL)`
  faulted : Phase

-- A thread, with the value of its semaphore if it has a control block. Histories: how often it was
-- suspended and resumed, and how often its handler began and ended.
pub record Thread : Type 0 where
  pub phase : Phase
  pub pending : Bool
  pub sem : Option ℕ
  pub suspended : ℕ
  pub resumed : ℕ
  pub begun : ℕ
  pub ended : ℕ

abbrev pub System : Type 0
System = ℕ → Thread

abbrev pub with_thread : System → ℕ → Thread → System
with_thread s thr t i = if i == thr then t else s i

-- What a call returns: an error number with -1, or zero and the new state.
pub data Answer : Type 0 where
  failed : ℕ → Answer
  succeeded : System → Answer

-- `err` is what `pthread_kill` returned.
unfoldable pub thrd_suspend : (err thr : ℕ) → System → Answer
thrd_suspend err thr s =
    if err == 0
    then succeeded
        (with_thread s thr (record (s thr) { pending = true; suspended = suc (s thr).suspended }))
    else failed err

abbrev posted : System → ℕ → Option ℕ → Answer
posted s thr none = failed enoent
posted s thr (some n) =
    succeeded
      (with_thread s thr (record (s thr) { sem = some (suc n); resumed = suc (s thr).resumed }))

unfoldable pub thrd_resume : (thr : ℕ) → System → Answer
thrd_resume thr s = posted s thr (s thr).sem

-- The handler begins, and the signal is blocked until it ends.
unfoldable pub signaled : (thr : ℕ) → System → System
signaled thr s =
    with_thread s thr
      (record (s thr) { phase = handling; pending = false; begun = suc (s thr).begun })

pub data Step (s : System) : System → Type 0 where
  suspend : {t : System} (thr : ℕ) → thrd_suspend 0 thr s ≡ succeeded t → Step s t
  resume : {t : System} (thr : ℕ) → thrd_resume thr s ≡ succeeded t → Step s t
  signal : (thr : ℕ) → (s thr).phase ≡ running → (s thr).pending ≡ true → Step s (signaled thr s)
  -- `sem_wait` is through, and the handler ends.
  go_on :
      (thr n : ℕ)
      → (s thr).phase ≡ handling
      → (s thr).sem ≡ some (suc n)
      → Step s (
          with_thread s thr
            (record (s thr) { phase = running; sem = some n; ended = suc (s thr).ended }))
  fault :
      (thr : ℕ)
      → (s thr).phase ≡ handling
      → (s thr).sem ≡ none
      → Step s (with_thread s thr (record (s thr) { phase = faulted }))

-- A thread of thrd_create, or one that has no control block.
abbrev pub fresh_thread : Bool → Thread
fresh_thread made = record {
  phase = running;
  pending = false;
  sem = if made then some 0 else none;
  suspended = 0;
  resumed = 0;
  begun = 0;
  ended = 0;
}

pub data Reach (made : ℕ → Bool) : System → Type 0 where
  at_first : Reach made (λ i. fresh_thread (made i))
  then_step : {s t : System} → Reach made s → Step s t → Reach made t

abbrev in_handler : Phase → ℕ
in_handler handling = 1
in_handler _ = 0

abbrev signals : Bool → ℕ
signals true = 1
signals false = 0

abbrev left : Option ℕ → ℕ
left none = 0
left (some n) = n

-- What holds of each thread that is not faulted.
abbrev Balanced : Thread → Type 0
Balanced t =
    (t.resumed ≡ left t.sem + t.ended)
    × (t.phase ≢ faulted → t.begun ≡ in_handler t.phase + t.ended)
    × (signals t.pending + t.begun ≤ t.suspended)

-- The state that a call left, if it succeeded.
abbrev state_of : Answer → System → System
state_of (failed e) s = s
state_of (succeeded t) s = t

with_thread-Balanced :
    (s : System) (thr : ℕ) (t : Thread)
    → ((i : ℕ) → Balanced (s i))
    → Balanced t
    → (i : ℕ) → Balanced (with_thread s thr t i)
with_thread-Balanced s thr t bal own i = elim (Bool-cases (i == thr)) [
  | inl here ↦ rw here own
  | inr other ↦ rw other (bal i)
]

signal-Balanced :
    (t : Thread)
    → t.phase ≡ running
    → t.pending ≡ true
    → Balanced t
    → Balanced (record t { phase = handling; pending = false; begun = suc t.begun })
signal-Balanced t at there (posts, ends, asked) =
    let was : t.begun ≡ 0 + t.ended =
      subst (λ p. p ≢ faulted → t.begun ≡ in_handler p + t.ended) at ends (ground arith) in
    let one : 1 + t.begun ≤ t.suspended =
      subst (λ b. signals b + t.begun ≤ t.suspended) there asked in
    (posts, (λ ne. omega (arith, was)), omega (arith, one))

go_on-Balanced :
    (t : Thread) (n : ℕ)
    → t.phase ≡ handling
    → t.sem ≡ some (suc n)
    → Balanced t
    → Balanced (record t { phase = running; sem = some n; ended = suc t.ended })
go_on-Balanced t n at more (posts, ends, asked) =
    let was : t.begun ≡ 1 + t.ended =
      subst (λ p. p ≢ faulted → t.begun ≡ in_handler p + t.ended) at ends (ground arith) in
    let value : t.resumed ≡ suc n + t.ended =
      subst (λ o. t.resumed ≡ left o + t.ended) more posts in
    (omega (arith, value), (λ ne. omega (arith, was)), asked)

posted-Balanced :
    (s : System) (thr : ℕ) (o : Option ℕ)
    → (s thr).sem ≡ o
    → ((i : ℕ) → Balanced (s i))
    → (i : ℕ) → Balanced (state_of (posted s thr o) s i)
posted-Balanced s thr none is bal = bal
posted-Balanced s thr (some n) is bal =
    let (posts, ends, asked) = bal thr in
    let value : (s thr).resumed ≡ n + (s thr).ended =
      subst (λ o. (s thr).resumed ≡ left o + (s thr).ended) is posts in
    with_thread-Balanced s thr _ bal (omega (arith, value), ends, asked)

suspended-Balanced :
    (t : Thread) → Balanced t → Balanced (record t { pending = true; suspended = suc t.suspended })
suspended-Balanced t (posts, ends, asked) = (posts, ends, omega (arith, asked))

Step-Balanced : {s t : System} → Step s t → ((i : ℕ) → Balanced (s i)) → (i : ℕ) → Balanced (t i)
unfolding thrd_suspend thrd_resume signaled
Step-Balanced {s} (suspend thr is) bal =
    subst (λ t. (i : ℕ) → Balanced (t i)) (ap (λ a. state_of a s) is)
      (with_thread-Balanced s thr _ bal (suspended-Balanced (s thr) (bal thr)))
Step-Balanced {s} (resume thr is) bal =
    subst (λ t. (i : ℕ) → Balanced (t i)) (ap (λ a. state_of a s) is)
      (posted-Balanced s thr (s thr).sem refl bal)
Step-Balanced {s} (signal thr at there) bal =
    with_thread-Balanced s thr _ bal (signal-Balanced (s thr) at there (bal thr))
Step-Balanced {s} (go_on thr n at more) bal =
    with_thread-Balanced s thr _ bal (go_on-Balanced (s thr) n at more (bal thr))
Step-Balanced {s} (fault thr at none_) bal =
    let (posts, ends, asked) = bal thr in
    with_thread-Balanced s thr _ bal (posts, (λ ne. absurd (ne refl)), asked)

-- A handler with a semaphore above zero goes on.
goes_on :
    {s : System} (thr n : ℕ)
    → (s thr).phase ≡ handling
    → (s thr).sem ≡ some n
    → 1 ≤ n
    → (t : System) × Step s t × ((t thr).phase ≡ running) × ((t thr).ended ≡ suc (s thr).ended)
goes_on {s} thr zero at is above = absurd (ground arith)
goes_on {s} thr (suc n) at is above = (_, go_on thr n at is, ground arith, ground arith)

fresh-Balanced : (made : Bool) → Balanced (fresh_thread made)
fresh-Balanced false = (refl, (λ ne. refl), ground arith)
fresh-Balanced true = (refl, (λ ne. refl), ground arith)

Reach-Balanced : {made : ℕ → Bool} {s : System} → Reach made s → (i : ℕ) → Balanced (s i)
Reach-Balanced {made} at_first i = fresh-Balanced (made i)
Reach-Balanced (then_step r st) i = Step-Balanced st (Reach-Balanced r) i

-- In every order of calls, signals and handlers, and for every thread that has a control block, the
-- handler does not end more often than the thread was resumed. If the thread was resumed as often
-- as it was suspended or more often, and is in its handler, its semaphore is above zero, and the
-- next step of the handler lets it run.
pub resumed-runs :
    {made : ℕ → Bool} {s : System}
    → Reach made s
    → (thr n : ℕ) → (s thr).sem ≡ some n
    → ((s thr).ended ≤ (s thr).resumed)
      × ((s thr).phase ≡ handling
          → (s thr).suspended ≤ (s thr).resumed
          → (t : System) × Step s t
            × ((t thr).phase ≡ running)
            × ((t thr).ended ≡ suc (s thr).ended))
resumed-runs {s} r thr n is =
    let (posts, ends, asked) = Reach-Balanced r thr in
    let value : (s thr).resumed ≡ n + (s thr).ended =
      subst (λ o. (s thr).resumed ≡ left o + (s thr).ended) is posts in
    (
      omega (arith, value),
      λ at enough.
          let more : (s thr).begun ≡ 1 + (s thr).ended =
            subst (λ p. p ≢ faulted → (s thr).begun ≡ in_handler p + (s thr).ended) at ends
              (ground arith) in
          let above : 1 ≤ n = omega (arith, more, asked, value, enough) in
          goes_on thr n at is above,
    )
