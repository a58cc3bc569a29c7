-- ===== src/Future/Defs.antt =====
-- The operations of src/future.c, run to the end under the mutex. `intmax_t` values are the numbers
-- that they are read as.
use coop_tasks.Base.{ℕ, ◌≡◌, refl, Bool, true, false, Option, none, some, if◌then◌else◌}

abbrev pub einval : ℕ
einval = 22

-- `struct future` less its mutex and condition variable, which the steps below model.
pub record Future : Type 0 where
  pub done : Bool
  pub value : ℕ

-- `struct promise`. Its four pointers are NULL, or point into its own future.
pub record Promise : Type 0 where
  pub ftr : Future
  pub connected : Bool

-- `FUTURE_INITIALIZER` and `PROMISE_INITIALIZER`
abbrev pub future_initializer : Future
future_initializer = record { done = false; value = 0 }

abbrev pub promise_initializer : Promise
promise_initializer = record { ftr = future_initializer; connected = false }

-- What a call came to: a value with the error number that it set, if any; a dereference of NULL; or
-- a wait that has not ended.
pub data Outcome (A : Type 0) : Type 0 where
  returned : Option ℕ → A → Outcome A
  crashed : Outcome A
  waiting : Outcome A

-- The first part of a result is false for `-1` (or NULL), and true otherwise.
unfoldable pub promise_init : Option Promise → Outcome (Bool × Option Promise)
promise_init none = returned (some einval) (false, none)
promise_init (some prms) = returned none (true, some promise_initializer)

unfoldable pub promise_get_future : Option Promise → Outcome (Bool × Option Promise)
promise_get_future none = returned (some einval) (false, none)
promise_get_future (some prms) = returned none (true, some (record prms { connected = true }))

-- `pthread_mutex_lock(prms->mtx)` dereferences NULL if no future was asked for.
unfoldable pub promise_set_value : Option Promise → ℕ → Outcome (Bool × Option Promise)
promise_set_value none value = returned (some einval) (false, none)
promise_set_value (some prms) value =
    if prms.connected
    then returned none (true, some (record prms { ftr = record { done = true; value = value } }))
    else crashed

unfoldable pub future_has_value : Option Future → Outcome Bool
future_has_value none = returned (some einval) false
future_has_value (some ftr) = returned none ftr.done

-- The second part is what `value` points to, if it is not NULL.
abbrev pub read_into : Future → Option ℕ → Option ℕ
read_into ftr none = none
read_into ftr (some old) = some ftr.value

unfoldable pub future_get_value : Option Future → Option ℕ → Outcome (Bool × Option ℕ)
future_get_value none value = returned (some einval) (false, value)
future_get_value (some ftr) value =
    if ftr.done then returned none (true, read_into ftr value) else waiting

-- A promise whose future was asked for takes a value: the future then has it, a caller that asks
-- with a buffer gets it there, and one that asks with none succeeds.
pub set-get :
    (prms : Promise) (v old : ℕ)
    → (set : Promise) × (prms' : Promise) × (promise_get_future (some prms)
        ≡ returned none (true, some prms'))
      × (promise_set_value (some prms') v ≡ returned none (true, some set))
      × (future_has_value (some set.ftr) ≡ returned none true)
      × (future_get_value (some set.ftr) (some old) ≡ returned none (true, some v))
      × (future_get_value (some set.ftr) none ≡ returned none (true, none))
unfolding promise_get_future promise_set_value future_has_value future_get_value
set-get prms v old = (
  record { ftr = record { done = true; value = v }; connected = true },
  record prms { connected = true },
  refl,
  refl,
  refl,
  refl,
  refl,
)

-- On a promise that is not set, and whose future was not asked for, a call that asks for the value
-- waits, the future has no value, and setting the promise dereferences NULL.
pub unset_waits :
    (prms : Promise) (v : ℕ) (buf : Option ℕ)
    → prms.ftr.done ≡ false
    → prms.connected ≡ false
    → (future_get_value (some prms.ftr) buf ≡ waiting)
      × (future_has_value (some prms.ftr) ≡ returned none false)
      × (promise_set_value (some prms) v ≡ crashed)
unfolding promise_set_value future_has_value future_get_value
unset_waits prms v buf unset alone = (rw unset, rw unset, rw alone)
