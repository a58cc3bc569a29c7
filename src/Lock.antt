-- ===== src/Lock.antt =====
-- The macro `lock` of src/utils.h, with generic_cancellable_lock and generic_cancellable_unlock, in a thread
-- whose cancellation is deferred: it is acted upon at a cancellation point. The cleanup handlers of
-- pthreads run from the last one pushed to the first.
use coop_tasks.Base.{
  ℕ, zero, suc, ◌≡◌, ◌∈◌, ◌∉◌, refl, Bool, true, false, Option, none, some, List, [], ◌∷◌, arith,
  has, ◌==◌, if◌then◌else◌,
}

-- The mutexes that the thread holds, and those that its cleanup handlers unlock.
pub record Thread : Type 0 where
  pub held : List ℕ
  pub handlers : List ℕ

-- What a thread does. The body of `lock` is a function of its own: a `return` in it ends the body.
pub data Code : Type 0 where
  nothing : Code
  -- a cancellation point, and one in pthread_cond_wait on a mutex, which is locked again first
  cancel_point : Code → Code
  cond_wait : ℕ → Code → Code
  exit_thread : Code
  -- `lock (obj) { body }` and the rest
  lock : (obj : ℕ) (body rest : Code) → Code

-- A thread locks a mutex that it holds already, or unlocks one that it does not hold: no result.
abbrev pthread_mutex_lock : ℕ → Thread → Option Thread
pthread_mutex_lock obj s = if has obj s.held then none else some (record s { held = obj ∷ s.held })

abbrev without : ℕ → List ℕ → List ℕ
without obj [] = []
without obj (x ∷ xs) = let rest = without obj xs in if x == obj then xs else x ∷ rest

abbrev pthread_mutex_unlock : ℕ → Thread → Option Thread
pthread_mutex_unlock obj s =
    if has obj s.held then some (record s { held = without obj s.held }) else none

abbrev pushed : ℕ → Option Thread → Option Thread
pushed obj none = none
pushed obj (some s) = some (record s { handlers = obj ∷ s.handlers })

abbrev rest_of : List ℕ → List ℕ
rest_of [] = []
rest_of (x ∷ xs) = xs

abbrev popped : Option Thread → Option Thread
popped none = none
popped (some s) = some (record s { handlers = rest_of s.handlers })

unfoldable pub generic_cancellable_lock : ℕ → Thread → Option Thread
generic_cancellable_lock obj s = pushed obj (pthread_mutex_lock obj s)

-- The handler is popped, and not run.
unfoldable pub generic_cancellable_unlock : ℕ → Thread → Option Thread
generic_cancellable_unlock obj s = popped (pthread_mutex_unlock obj s)

-- How a thread comes out of its code.
pub data Outcome : Type 0 where
  finished : Thread → List Bool → Outcome
  ended : Thread → Outcome
  wrong : Outcome

abbrev after : Option Thread → (Thread → Outcome) → Outcome
after none go_on = wrong
after (some s) go_on = go_on s

-- The handlers of a thread that ends.
unfoldable pub run_handlers : List ℕ → Thread → Outcome
run_handlers [] s = ended (record s { handlers = [] })
run_handlers (obj ∷ rest) s = after (pthread_mutex_unlock obj s) (run_handlers rest)

abbrev answers_behind : List Bool → List Bool
answers_behind [] = []
answers_behind (a ∷ as_) = as_

abbrev cancelled : List Bool → Bool
cancelled [] = false
cancelled (a ∷ as_) = a

abbrev then_run : Outcome → (Thread → List Bool → Outcome) → Outcome
then_run (finished s as_) go_on = go_on s as_
then_run (ended s) go_on = ended s
then_run wrong go_on = wrong

-- The answers say at which cancellation points there is a request to act upon.
unfoldable pub run : Code → List Bool → Thread → Outcome
run nothing as_ s = finished s as_
run (cancel_point rest) as_ s =
    let more = run rest (answers_behind as_) s in
    if cancelled as_ then run_handlers s.handlers s else more
run (cond_wait obj rest) as_ s =
    let more = run rest (answers_behind as_) s in
    if has obj s.held then (if cancelled as_ then run_handlers s.handlers s else more) else wrong
run exit_thread as_ s = run_handlers s.handlers s
run (lock obj body rest) as_ s = after (generic_cancellable_lock obj s) λ s'.
    then_run (run body as_ s')
      λ t as2. after (generic_cancellable_unlock obj t) λ t'. run rest as2 t'

-- The loop of a worker of src/thread_pool.c up to its jobs: `pthread_testcancel`, and under the pool's
-- mutex as many waits as there are in each round.
abbrev waits : ℕ → ℕ → Code
waits mtx zero = nothing
waits mtx (suc k) = cond_wait mtx (waits mtx k)

abbrev pub worker_loop : ℕ → List ℕ → Code
worker_loop mtx [] = nothing
worker_loop mtx (k ∷ ks) = cancel_point (lock mtx (waits mtx k) (worker_loop mtx ks))

-- No mutex is locked while the thread holds it, and waiting is under the mutex.
abbrev pub Scoped : List ℕ → Code → Type 0
Scoped held nothing = Unit {0}
Scoped held (cancel_point rest) = Scoped held rest
Scoped held (cond_wait obj rest) = (obj ∈ held) × Scoped held rest
Scoped held exit_thread = Unit {0}
Scoped held (lock obj body rest) = (obj ∉ held) × Scoped (obj ∷ held) body × Scoped held rest

abbrev pub holding : List ℕ → Thread
holding held = record { held = held; handlers = held }

-- At the end of its code the thread holds what it held, and has the same handlers; if it ended
-- before, it holds nothing.
abbrev pub Released : List ℕ → Outcome → Type 0
Released held (finished s as_) = s ≡ holding held
Released held (ended s) = s ≡ holding []
Released held wrong = ⊥

handlers_end :
    (held all : List ℕ)
    → run_handlers held (record { held = held; handlers = all }) ≡ ended (holding [])
unfolding run_handlers
handlers_end [] all = refl
handlers_end (obj ∷ held) all =
    let here : (obj == obj) ≡ true = ground arith in rw (here, handlers_end held all) refl

cancel-Released :
    (held : List ℕ) (c : Bool) (more : Outcome)
    → Released held more
    → Released held (if c then run_handlers held (holding held) else more)
cancel-Released held true more ok = rw (handlers_end held held) refl
cancel-Released held false more ok = ok

unlocked :
    (obj : ℕ) (held : List ℕ)
    → generic_cancellable_unlock obj (holding (obj ∷ held)) ≡ some (holding held)
unfolding generic_cancellable_unlock
unlocked obj held = let here : (obj == obj) ≡ true = ground arith in rw here refl

locked :
    (obj : ℕ) (held : List ℕ)
    → obj ∉ held
    → generic_cancellable_lock obj (holding held) ≡ some (holding (obj ∷ held))
unfolding generic_cancellable_lock
locked obj held out = rw out refl

-- What comes after the body of a lock.
body-Released :
    (obj : ℕ) (held : List ℕ) (o : Outcome) (go_on : Thread → List Bool → Outcome)
    → Released (obj ∷ held) o
    → ((as_ : List Bool) → Released held (go_on (holding held) as_))
    → Released held
        (then_run o λ t as2. after (generic_cancellable_unlock obj t) λ t'. go_on t' as2)
body-Released obj held (finished t as_) go_on ok rest = rw (ok, unlocked obj held) (rest as_)
body-Released obj held (ended t) go_on ok rest = ok
body-Released obj held wrong go_on ok rest = ok

-- If the cleanup handlers of a thread unlock the mutexes `held` that it holds, in that order, and its
-- code locks no mutex that it holds already and waits only under the mutex: whichever cancellation
-- point the thread is cancelled at, if any, no mutex is locked twice or unlocked without being held;
-- a thread that comes to the end of its code holds what it held, with the same handlers, and one
-- that is cancelled or exits before holds nothing.
pub run-Released :
    (code : Code) (as_ : List Bool) (held : List ℕ)
    → Scoped held code
    → Released held (run code as_ (holding held))
unfolding run
run-Released nothing as_ held sc = refl
run-Released (cancel_point rest) as_ held sc =
    cancel-Released held (cancelled as_) _ (run-Released rest (answers_behind as_) held sc)
run-Released (cond_wait obj rest) as_ held (there, sc) =
    rw there
      (cancel-Released held (cancelled as_) _ (run-Released rest (answers_behind as_) held sc))
run-Released exit_thread as_ held sc = rw (handlers_end held held) refl
run-Released (lock obj body rest) as_ held (out, inner, sc) = rw (locked obj held out) (
    body-Released obj held (run body as_ (holding (obj ∷ held))) (λ t as2. run rest as2 t)
      (run-Released body as_ (obj ∷ held) inner) (λ as2. run-Released rest as2 held sc))

waits-Scoped : (mtx k : ℕ) → Scoped (mtx ∷ []) (waits mtx k)
waits-Scoped mtx zero = tt
waits-Scoped mtx (suc k) = (ground arith, waits-Scoped mtx k)

pub worker_loop-Scoped : (mtx : ℕ) (ks : List ℕ) → Scoped [] (worker_loop mtx ks)
worker_loop-Scoped mtx [] = tt
worker_loop-Scoped mtx (k ∷ ks) = (refl, waits-Scoped mtx k, worker_loop-Scoped mtx ks)
