-- ===== src/Future/Steps.antt =====
-- A promise that is set while any number of threads wait for its future, in any interleaving.
use coop_tasks.Base.{ℕ, ◌≡◌, refl, subst, true, false, arith, ◌==◌, if◌then◌else◌}
use coop_tasks.Future.Defs.{Future, future_initializer}

-- Where a waiter stands in `future_get_value`. The value is read after the mutex is released.
pub data Waiter : Type 0 where
  at_lock : Waiter
  testing : Waiter
  asleep : Waiter
  unlocked : Waiter
  got : ℕ → Waiter

-- Where the setter stands in `promise_set_value`.
pub data Setter : Type 0 where
  before_lock : Setter
  storing_value : Setter
  storing_done : Setter
  unlocking : Setter
  finished : Setter

-- Who holds the mutex.
pub data Owner : Type 0 where
  nobody : Owner
  setter : Owner
  waiter : ℕ → Owner

pub record State : Type 0 where
  pub ftr : Future
  pub mutex : Owner
  pub setting : Setter
  pub waiters : ℕ → Waiter

abbrev pub update : (ℕ → Waiter) → ℕ → Waiter → ℕ → Waiter
update f i x j = if j == i then x else f j

-- One step of the setter, which stores `v`, or of the waiter `i`.
pub data Step (v : ℕ) (s : State) : State → Type 0 where
  lock_setter :
      s.setting ≡ before_lock
      → s.mutex ≡ nobody
      → Step v s (record s { mutex = setter; setting = storing_value })
  store_value :
      s.setting ≡ storing_value
      → Step v s
          (record s { ftr = record { done = s.ftr.done; value = v }; setting = storing_done })
  store_done :
      s.setting ≡ storing_done
      → Step v s
          (record s { ftr = record { done = true; value = s.ftr.value }; setting = unlocking })
  unlock_setter : s.setting ≡ unlocking → Step v s (record s { mutex = nobody; setting = finished })
  lock_waiter :
      (i : ℕ)
      → s.waiters i ≡ at_lock
      → s.mutex ≡ nobody
      → Step v s (record s { mutex = waiter i; waiters = update s.waiters i testing })
  -- The loop's test fails: the wait gives the mutex back.
  sleep :
      (i : ℕ)
      → s.waiters i ≡ testing
      → s.ftr.done ≡ false
      → Step v s (record s { mutex = nobody; waiters = update s.waiters i asleep })
  -- The wait ends, by a signal or spuriously, and takes the mutex again.
  wake :
      (i : ℕ)
      → s.waiters i ≡ asleep
      → s.mutex ≡ nobody
      → Step v s (record s { mutex = waiter i; waiters = update s.waiters i testing })
  leave_loop :
      (i : ℕ)
      → s.waiters i ≡ testing
      → s.ftr.done ≡ true
      → Step v s (record s { mutex = nobody; waiters = update s.waiters i unlocked })
  read :
      (i : ℕ)
      → s.waiters i ≡ unlocked
      → Step v s (record s { waiters = update s.waiters i (got s.ftr.value) })

abbrev pub start : State
start = record {
  ftr = future_initializer;
  mutex = nobody;
  setting = before_lock;
  waiters = λ _. at_lock;
}

pub data Reach (v : ℕ) : State → Type 0 where
  here : Reach v start
  next : {s t : State} → Reach v s → Step v s t → Reach v t

-- `done` is only seen with the value in place.
abbrev pub Published : ℕ → Future → Setter → Type 0
Published v ftr before_lock = ftr.done ≡ false
Published v ftr storing_value = ftr.done ≡ false
Published v ftr storing_done = (ftr.done ≡ false) × (ftr.value ≡ v)
Published v ftr unlocking = (ftr.done ≡ true) × (ftr.value ≡ v)
Published v ftr finished = (ftr.done ≡ true) × (ftr.value ≡ v)

abbrev pub Saw : ℕ → Future → Waiter → Type 0
Saw v ftr unlocked = ftr.done ≡ true
Saw v ftr (got x) = x ≡ v
Saw v ftr _ = Unit {0}

pub record Inv (v : ℕ) (s : State) : Type 0 where
  pub published : Published v s.ftr s.setting
  pub saw : (i : ℕ) → Saw v s.ftr (s.waiters i)

done-value :
    (v : ℕ) (ftr : Future) (st : Setter) → Published v ftr st → ftr.done ≡ true → ftr.value ≡ v
done-value v ftr before_lock p d = cc
done-value v ftr storing_value p d = cc
done-value v ftr storing_done p d = cc
done-value v ftr unlocking p d = p.1
done-value v ftr finished p d = p.1

-- What the waiters saw survives the two stores of the setter.
Saw-stored :
    (v : ℕ) (ftr : Future) (x : ℕ) (w : Waiter)
    → ftr.done ≡ false
    → Saw v ftr w
    → Saw v (record { done = ftr.done; value = x }) w
Saw-stored v ftr x at_lock d s = s
Saw-stored v ftr x testing d s = s
Saw-stored v ftr x asleep d s = s
Saw-stored v ftr x unlocked d s = s
Saw-stored v ftr x (got y) d s = s

Saw-done :
    (v : ℕ) (ftr : Future) (w : Waiter)
    → Saw v ftr w
    → Saw v (record { done = true; value = ftr.value }) w
Saw-done v ftr at_lock s = s
Saw-done v ftr testing s = s
Saw-done v ftr asleep s = s
Saw-done v ftr unlocked s = refl
Saw-done v ftr (got y) s = s

Step-Inv : (v : ℕ) {s t : State} → Step v s t → Inv v s → Inv v t
Step-Inv v {s} (lock_setter at free) inv =
    let p = subst (Published v s.ftr) at inv.published in record { published = p; saw = inv.saw }
Step-Inv v {s} (store_value at) inv =
    let p = subst (Published v s.ftr) at inv.published in
    record { published = (p, refl); saw = λ j. Saw-stored v s.ftr v (s.waiters j) p (inv.saw j) }
Step-Inv v {s} (store_done at) inv =
    let p = subst (Published v s.ftr) at inv.published in
    record { published = (refl, p.1); saw = λ j. Saw-done v s.ftr (s.waiters j) (inv.saw j) }
Step-Inv v {s} (unlock_setter at) inv =
    let p = subst (Published v s.ftr) at inv.published in record { published = p; saw = inv.saw }
Step-Inv v (lock_waiter i at free) inv = record {
  published = inv.published;
  saw = λ j. ground (arith, inv.saw j);
}
Step-Inv v (sleep i at no_value) inv = record {
  published = inv.published;
  saw = λ j. ground (arith, inv.saw j);
}
Step-Inv v (wake i at free) inv = record {
  published = inv.published;
  saw = λ j. ground (arith, inv.saw j);
}
Step-Inv v (leave_loop i at set) inv = record {
  published = inv.published;
  saw = λ j. ground (arith, inv.saw j);
}
Step-Inv v {s} (read i at) inv = record {
  published = inv.published;
  saw = λ j. ground (arith, inv.saw j, inv.saw i, done-value v s.ftr s.setting inv.published);
}

start-Inv : (v : ℕ) → Inv v start
start-Inv v = record { published = refl; saw = λ i. tt }

pub Reach-Inv : (v : ℕ) {s : State} → Reach v s → Inv v s
Reach-Inv v here = start-Inv v
Reach-Inv v (next r st) = Step-Inv v st (Reach-Inv v r)

-- However the setter and any number of waiters interleave, a waiter that has read a value has read
-- the one that was set.
pub got-value : (v : ℕ) {s : State} → Reach v s → (i : ℕ) (x : ℕ) → s.waiters i ≡ got x → x ≡ v
got-value v {s} r i x e = ground (arith, (Reach-Inv v r).saw i)
