-- ===== src/ThreadTests.antt =====
-- The theorems on making threads, at concrete tables.
use coop_tasks.Base.{
  Bool, ℕ, suc, ◌+◌, ◌-◌, ◌^◌, ◌≤◌, ◌<◌, ◌≡◌, ◌≢◌, refl, true, false, none, some, List, [], ◌∷◌,
  length, ltb, replicate, arith, if◌then◌else◌, ◌⊎◌, inl, inr, Bool-cases,
}
use coop_tasks.Threads.{failed, succeeded, list_search, thrd_join, thrd_exit, join-exit}
use coop_tasks.Threads.Create.{
  Tables, max_threads, tcb_initialize, tcb_maker, thrd_create, internal_entry,
  internal_task_finalizer, failing, list_insert, list_delete, taken_key, thread_end, create-end,
  buckets_used_up,
}
use coop_tasks.Lock.{
  run, run_handlers, ended, holding, Released, worker_loop, generic_cancellable_lock,
  generic_cancellable_unlock, run-Released, worker_loop-Scoped,
}
use coop_tasks.Threads.Suspend
use coop_tasks.Threads.Suspend.{
  running, handling, faulted, thrd_resume, signaled, suspend, resume, signal, go_on, fault,
  resumed-runs,
}
use coop_tasks.Threads.Sleep.{Woken, Clock, eintr, woken, thrd_sleep, sleep-woken}

-- One thread is there, and one bucket is left.
abbrev tables : Tables
tables = record {
  keys = record { tcb_key = 3; live = 3 ∷ []; specific = (10, 3) ∷ [] };
  tcbs = (10, record { thr = 10; name = replicate 16 0; suspend = 7 }) ∷ [];
  suspends = 255;
  buckets = 1;
}

not_there : list_search 11 tables.tcbs ≡ none
unfolding list_search
not_there = refl

create-end_example :
    (tables' : Tables) × (thrd_create true true 0 11 8 true (some 4) tables
      ≡ (succeeded 11, tables'))
    × (list_search 11 tables'.tcbs ≡ some (record { thr = 11; name = replicate 16 0; suspend = 8 }))
    × ((t : ℕ) → t ≢ 11 → list_search t tables'.tcbs ≡ list_search t tables.tcbs)
    × (thread_end 11 tables'
        ≡ some (record {
          keys = record { tcb_key = 4; live = tables.keys.live; specific = tables.keys.specific };
          tcbs = tables.tcbs;
          suspends = tables.suspends;
          buckets = tables.buckets;
        }))
create-end_example =
    create-end tables 11 8 4 (omega arith) (omega arith) (omega arith) (omega arith) not_there

-- A second thread is made, and the first one ends: it deletes the second one's key, and so the second
-- one's block and semaphore stay when it ends too.
block_left :
    (first : Tables) × (second : Tables) × (third : Tables) × (fourth : Tables) × (thrd_create true
        true 0 11 8 true
        (some 4)
        tcb_initialize
      ≡ (succeeded 11, first))
    × (thrd_create true true 0 12 9 true (some 5) first ≡ (succeeded 12, second))
    × (thread_end 11 second ≡ some third)
    × (thread_end 12 third ≡ some fourth)
    × (list_search 12 fourth.tcbs ≡ some (tcb_maker 12 9))
    × (fourth.suspends ≡ max_threads - 1)
unfolding tcb_initialize thrd_create internal_entry thread_end taken_key internal_task_finalizer
    list_insert list_delete list_search
block_left = (_, _, _, _, refl, refl, refl, refl, refl, refl)

-- EAGAIN, ten times.
buckets_used_up_example :
    (thrd_create true true 0 11 8 true none (failing 10 11 tcb_initialize)).0 ≡ failed 12
unfolding tcb_initialize
buckets_used_up_example =
    buckets_used_up 10 11 tcb_initialize 11 8 true none (omega arith) (omega arith)

-- The thread 4 was suspended, its handler began, and it was resumed.
resumed_once :
    (s : Suspend.System) × Suspend.Reach (λ _. true) s
    × ((s 4).sem ≡ some 1)
    × ((s 4).phase ≡ handling)
    × ((s 4).suspended ≡ 1)
    × ((s 4).resumed ≡ 1)
unfolding Suspend.thrd_suspend thrd_resume signaled
resumed_once =
    let r1 : Suspend.Reach (λ _. true) _ = Suspend.then_step Suspend.at_first (suspend 4 refl) in
    let r2 : Suspend.Reach (λ _. true) _ = Suspend.then_step r1 (signal 4 refl refl) in
    (_, Suspend.then_step r2 (resume 4 refl), refl, refl, refl, refl)

abbrev resumed_state : Suspend.System
resumed_state = resumed_once.0

resumed-runs_example :
    ((resumed_state 4).ended ≤ (resumed_state 4).resumed)
    × ((resumed_state 4).phase ≡ handling
        → (resumed_state 4).suspended ≤ (resumed_state 4).resumed
        → (t : Suspend.System) × Suspend.Step resumed_state t
          × ((t 4).phase ≡ running)
          × ((t 4).ended ≡ suc (resumed_state 4).ended))
resumed-runs_example = resumed-runs resumed_once.1 4 1 resumed_once.2

-- Two suspensions before the first signal arrives make one; both resumptions count, and the next
-- suspension does not hold the thread back.
not_held_back :
    (s : Suspend.System) × Suspend.Reach (λ _. true) s
    × ((s 4).phase ≡ running)
    × ((s 4).pending ≡ false)
    × ((s 4).suspended ≡ 3)
    × ((s 4).resumed ≡ 2)
unfolding Suspend.thrd_suspend thrd_resume signaled
not_held_back =
    let r1 : Suspend.Reach (λ _. true) _ = Suspend.then_step Suspend.at_first (suspend 4 refl) in
    let r2 : Suspend.Reach (λ _. true) _ = Suspend.then_step r1 (suspend 4 refl) in
    let r3 : Suspend.Reach (λ _. true) _ = Suspend.then_step r2 (signal 4 refl refl) in
    let r4 : Suspend.Reach (λ _. true) _ = Suspend.then_step r3 (resume 4 refl) in
    let r5 : Suspend.Reach (λ _. true) _ = Suspend.then_step r4 (resume 4 refl) in
    let r6 : Suspend.Reach (λ _. true) _ = Suspend.then_step r5 (go_on 4 1 refl refl) in
    let r7 : Suspend.Reach (λ _. true) _ = Suspend.then_step r6 (suspend 4 refl) in
    let r8 : Suspend.Reach (λ _. true) _ = Suspend.then_step r7 (signal 4 refl refl) in
    (_, Suspend.then_step r8 (go_on 4 0 refl refl), refl, refl, refl, refl)

-- A thread with no control block is suspended.
no_semaphore : (s : Suspend.System) × Suspend.Reach (λ _. false) s × ((s 4).phase ≡ faulted)
unfolding Suspend.thrd_suspend signaled
no_semaphore =
    let r1 : Suspend.Reach (λ _. false) _ = Suspend.then_step Suspend.at_first (suspend 4 refl) in
    let r2 : Suspend.Reach (λ _. false) _ = Suspend.then_step r1 (signal 4 refl refl) in
    (_, Suspend.then_step r2 (fault 4 refl refl), refl)

-- A clock with the times from one signal to the next.
abbrev sleep_test : ℕ → ℕ × List ℕ → Woken ℕ (ℕ × List ℕ)
sleep_test d (now, []) = record { ret = 0; rem = 0; after = (now + d, []) }
sleep_test d (now, i ∷ is) =
    if ltb i d
    then record { ret = eintr; rem = d - i; after = (now + i, is) }
    else record { ret = 0; rem = 0; after = (now + d, is) }

sleep_test-answers :
    (d : ℕ) (k : ℕ × List ℕ)
    → let w = sleep_test d k in
      ((w.ret ≡ 0) × (k.0 + d ≤ w.after.0))
      ⊎ ((w.ret ≡ eintr)
          × Unit {0}
          × (k.0 + d ≤ w.after.0 + w.rem)
          × (w.rem ≤ d)
          × (length w.after.1 < length k.1))
sleep_test-answers d (now, []) = inl (refl, omega arith)
sleep_test-answers d (now, i ∷ is) = elim (Bool-cases (ltb i d)) [
  | inl before ↦
      let less : i < d = ground arith in
      rw before (inr (refl, tt, omega arith, omega arith, ground arith))
  | inr behind ↦ rw behind (inl (refl, omega arith))
]

abbrev clock : Clock ℕ (ℕ × List ℕ)
clock = record {
  duration = λ d. d;
  IsValid = λ d. Unit {0};
  now = λ k. k.0;
  to_come = λ k. length k.1;
  clock_nanosleep = sleep_test;
  answers = λ d k valid. sleep_test-answers d k;
}

sleep-woken_example :
    (ts : ℕ) × (k : ℕ × List ℕ) × (thrd_sleep clock 2 (some 100) (5, 30 ∷ []) ≡ some (woken ts k))
    × (105 ≤ k.0)
    × (ts ≤ 100)
sleep-woken_example = sleep-woken clock 2 100 (5, 30 ∷ []) tt (ground arith)

-- A thread that ends with -1.
join-exit_example :
    (thrd_join 0 (thrd_exit (2 ^ 32 - 1)) (some 7) ≡ succeeded (some (2 ^ 32 - 1)))
    × ((err status : ℕ) → err ≢ 0 → thrd_join err status (some 7) ≡ failed err)
join-exit_example = join-exit (2 ^ 32 - 1) 7 (omega arith)

abbrev cancellations : List Bool
cancellations = false ∷ false ∷ false ∷ false ∷ false ∷ false ∷ true ∷ []

-- A worker that is cancelled in the third wait of its second round.
run-Released_example : Released [] (run (worker_loop 5 (2 ∷ 4 ∷ [])) cancellations (holding []))
run-Released_example =
    run-Released (worker_loop 5 (2 ∷ 4 ∷ [])) cancellations [] (worker_loop-Scoped 5 (2 ∷ 4 ∷ []))

cancelled_in_wait : run (worker_loop 5 (2 ∷ 4 ∷ [])) cancellations (holding []) ≡ ended (holding [])
unfolding run run_handlers generic_cancellable_lock generic_cancellable_unlock
cancelled_in_wait = refl
