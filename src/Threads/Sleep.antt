-- ===== src/Threads/Sleep.antt =====
-- thrd_sleep of src/threads_posix.c, over a clock of the system.
use coop_tasks.Base.{
  ℕ, zero, suc, ◌+◌, ◌≤◌, ◌<◌, ◌≡◌, refl, Option, none, some, arith, ◌==◌, if◌then◌else◌, ◌⊎◌, inl,
  inr,
}
use coop_tasks.Heap.{einval}

abbrev pub eintr : ℕ
eintr = 4

-- What `clock_nanosleep` left: the error number it returned, the remaining time, and the system
-- after the call.
pub record Woken (T K : Type 0) : Type 0 where
  pub ret : ℕ
  pub rem : T
  pub after : K

-- The system as far as sleeping goes: `T` is `struct timespec`. POSIX on `clock_nanosleep`: a valid
-- request is slept through, or broken off with EINTR by the handler of a signal, and then the rest
-- of the time is stored. A number of signals is still to come.
pub record Clock (T K : Type 0) : Type 1 where
  pub duration : T → ℕ
  pub IsValid : T → Type 0
  pub now : K → ℕ
  pub to_come : K → ℕ
  pub clock_nanosleep : T → K → Woken T K
  pub answers :
      (d : T) (k : K)
      → IsValid d
      → let w = clock_nanosleep d k in
        ((w.ret ≡ 0) × (now k + duration d ≤ now w.after))
        ⊎ ((w.ret ≡ eintr)
            × IsValid w.rem
            × (now k + duration d ≤ now w.after + duration w.rem)
            × (duration w.rem ≤ duration d)
            × (to_come w.after < to_come k))

-- What the call leaves: EINVAL in `errno`, or the time at `ts` and the system.
pub data Slept (T K : Type 0) : Type 0 where
  refused : (errno : ℕ) → Slept T K
  woken : (ts : T) → K → Slept T K

module _ {T K : Type 0} (clock : Clock T K) where
  -- The rounds of the loop, with fuel for so many.
  unfoldable pub rounds : ℕ → T → K → Option (Slept T K)
  rounds zero rem k = none
  rounds (suc fuel) rem k =
      let w = clock.clock_nanosleep rem k in
      let more = rounds fuel w.rem w.after in
      if w.ret == eintr then more else some (woken rem w.after)

  unfoldable pub thrd_sleep : ℕ → Option T → K → Option (Slept T K)
  thrd_sleep fuel none k = some (refused einval)
  thrd_sleep fuel (some ts) k = rounds fuel ts k

  rounds-woken :
      (fuel : ℕ) (d : T) (k : K)
      → clock.IsValid d
      → clock.to_come k < fuel
      → (ts : T) × (k' : K) × (rounds fuel d k ≡ some (woken ts k'))
        × (clock.now k + clock.duration d ≤ clock.now k')
        × (clock.duration ts ≤ clock.duration d)
  unfolding rounds
  rounds-woken zero d k valid few = absurd (omega arith)
  rounds-woken (suc fuel) d k valid few = elim (clock.answers d k valid) [
    | inl (through, slept) ↦ (d, _, rw through refl, slept, omega arith)
    | inr (broken, valid', rest, less, fewer) ↦
        let w = clock.clock_nanosleep d k in
        let (ts, k', is, slept, short) = rounds-woken fuel w.rem w.after valid' (omega arith) in
        (ts, k', rw broken is, omega arith, omega arith)
  ]

  -- If `ts` is a valid time and the fuel exceeds the number of signals to come, `thrd_sleep` returns,
  -- and not before the time that was asked for is over, whatever signals break the sleep off; the
  -- time it leaves at `ts` is not longer than that.
  pub sleep-woken :
      (fuel : ℕ) (d : T) (k : K)
      → clock.IsValid d
      → clock.to_come k < fuel
      → (ts : T) × (k' : K) × (thrd_sleep fuel (some d) k ≡ some (woken ts k'))
        × (clock.now k + clock.duration d ≤ clock.now k')
        × (clock.duration ts ≤ clock.duration d)
  unfolding thrd_sleep
  sleep-woken fuel d k valid few = rounds-woken fuel d k valid few
