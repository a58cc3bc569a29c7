-- ===== src/Threads/Create.antt =====
-- src/threads_posix.c: making a thread, what it does before its function, and what it does when it
-- ends. The two pools and the list are what src/collections.c makes of them: a number of fragments
-- that can be handed out, and a map of at most `MAX_THREADS` blocks.
use coop_tasks.Base.{
  ℕ, zero, suc, ◌+◌, ◌-◌, ◌^◌, ◌≡◌, ◌≢◌, ◌<◌, ◌≤◌, Bool, true, false, Option, none, some, List, [],
  ◌∷◌, erase, has, arith, ◌==◌, ltb, if◌then◌else◌, length, replicate,
}
use coop_tasks.Threads.{Tcb, Tcbs, Result, failed, succeeded, list_search}

abbrev enomem : ℕ
enomem = 12

abbrev einval : ℕ
einval = 22

-- `MAX_THREADS`
abbrev pub max_threads : ℕ
max_threads = 256

-- The variable `tcb_key`, the keys of pthreads that exist, and for a thread the key under which it
-- has a value.
pub record Keys : Type 0 where
  pub tcb_key : ℕ
  pub live : List ℕ
  pub specific : List (ℕ × ℕ)

-- `tcbs`, what `suspends` and `buckets` can still hand out, and the keys.
pub record Tables : Type 0 where
  pub keys : Keys
  pub tcbs : Tcbs
  pub suspends : ℕ
  pub buckets : ℕ

-- With the memory that it asks for.
unfoldable pub tcb_initialize : Tables
tcb_initialize = record {
  keys = record { tcb_key = 0; live = []; specific = [] };
  tcbs = [];
  suspends = max_threads;
  buckets = 10;
}

-- `list_insert` and `list_delete` on `tcbs`.
unfoldable pub list_insert : ℕ → Tcb → Tcbs → Option Tcbs
list_insert thr tcb tcbs = elim (list_search thr tcbs) [
  | none ↦ if ltb (length tcbs) max_threads then some ((thr, tcb) ∷ tcbs) else none
  | some old ↦ none
]

abbrev behind : ℕ × Tcb → Option (Tcb × Tcbs) → Option (Tcb × Tcbs)
behind first none = none
behind first (some (tcb, rest)) = some (tcb, first ∷ rest)

unfoldable pub list_delete : ℕ → Tcbs → Option (Tcb × Tcbs)
list_delete thr [] = none
list_delete thr ((key, tcb) ∷ rest) =
    let deleted = list_delete thr rest in
    if key == thr then some (tcb, rest) else behind (key, tcb) deleted

-- `mempool_free(&buckets, tcb)`
abbrev pub free_bucket : Tables → Tables
free_bucket tables = record tables { buckets = tables.buckets + 1 }

-- `pthread_key_create(&tcb_key, internal_task_finalizer)`, with the key that it makes, if it does,
-- and `pthread_setspecific(tcb_key, …)`, which fails without that key.
abbrev pub key_created : Option ℕ → Keys → Keys
key_created none keys = keys
key_created (some key) keys = record keys { tcb_key = key; live = key ∷ keys.live }

abbrev pub key_set : ℕ → Keys → Keys
key_set thr keys =
    if has keys.tcb_key keys.live
    then record keys { specific = (thr, keys.tcb_key) ∷ keys.specific }
    else keys

-- What the promise is set to: zero, or a negative error number.
abbrev pub inserted : (thr : ℕ) (key : Option ℕ) → Option Tcbs → Tables → Option ℕ × Tables
inserted thr key none tables = (some enomem, free_bucket tables)
inserted thr key (some tcbs) tables = (
  none,
  free_bucket (record tables { tcbs = tcbs; keys = key_set thr (key_created key tables.keys) }),
)

-- `TCB_MAKER`, with the thread and the semaphore that `internal_entry` sets.
abbrev pub tcb_maker : (thr sem : ℕ) → Tcb
tcb_maker thr sem = record { thr = thr; name = replicate 16 0; suspend = sem }

-- The new thread `thr` up to the call of its function. `sem` is what `suspends` hands out, and
-- `sem_ok` whether `sem_init` succeeds; `key` is the key that the system makes. The block is read after its bucket is given back, which is
-- right only while no other thread takes the bucket.
unfoldable pub internal_entry :
    (thr sem : ℕ) (sem_ok : Bool) (key : Option ℕ) → Tables → Option ℕ × Tables
internal_entry thr sem sem_ok key tables =
    if tables.suspends == 0
    then (some enomem, free_bucket tables)
    else (let tables' = record tables { suspends = tables.suspends - 1 } in
        if sem_ok
        then inserted thr key (list_insert thr (tcb_maker thr sem) tables'.tcbs) tables'
        else (some enomem, free_bucket tables'))

-- `errno = status`, where the status is zero or a negative error number, as 32 bits.
abbrev pub status_result : ℕ → Option ℕ × Tables → Result ℕ × Tables
status_result thr (none, tables) = (succeeded thr, tables)
status_result thr (some e, tables) = (failed (2 ^ 32 - e), tables)

-- `has_thr` and `has_func` tell whether the arguments are not NULL; `err` is what `pthread_create`
-- returns, and `thr` the thread that it makes.
unfoldable pub thrd_create :
    (has_thr has_func : Bool) (err thr sem : ℕ) (sem_ok : Bool) (key : Option ℕ)
    → Tables
    → Result ℕ × Tables
thrd_create false has_func err thr sem sem_ok key tables = (failed einval, tables)
thrd_create true false err thr sem sem_ok key tables = (failed einval, tables)
thrd_create true true err thr sem sem_ok key tables =
    if tables.buckets == 0
    then (failed enomem, tables)
    else (let tables' = record tables { buckets = tables.buckets - 1 } in
        if err == 0
        then status_result thr (internal_entry thr sem sem_ok key tables')
        else (failed err, tables'))

-- At the end of the process: the pools and the list are destroyed, and hand out nothing more.
unfoldable tcb_finalizer : Tables → Tables
tcb_finalizer tables = record tables { tcbs = []; suspends = 0; buckets = 0 }

-- `mempool_free(&suspends, …)`, which does nothing for NULL.
abbrev pub free_suspend : ℕ → ℕ → ℕ
free_suspend sem suspends = if sem == 0 then suspends else suspends + 1

-- `pthread_key_delete(tcb_key)`
abbrev pub key_deleted : Keys → Keys
key_deleted keys = record keys { live = erase keys.tcb_key keys.live }

-- `internal_task_finalizer`. With no block, it frees what an unset variable holds.
abbrev pub finalized : Tables → Option (Tcb × Tcbs) → Option Tables
finalized tables none = none
finalized tables (some (tcb, tcbs)) = some (record tables {
  tcbs = tcbs;
  suspends = free_suspend tcb.suspend tables.suspends;
  keys = key_deleted tables.keys;
})

unfoldable pub internal_task_finalizer : ℕ → Tables → Option Tables
internal_task_finalizer thr tables = finalized tables (list_delete thr tables.tcbs)

-- The key under which a thread has a value, and the others' keys.
unfoldable pub taken_key : ℕ → List (ℕ × ℕ) → Option (ℕ × List (ℕ × ℕ))
taken_key thr [] = none
taken_key thr ((t, key) ∷ rest) =
    let behind_ = taken_key thr rest in
    if t == thr
    then some (key, rest)
    else elim behind_ [ none ↦ none | some (k, others) ↦ some (k, (t, key) ∷ others) ]

-- A thread ends: pthreads takes its value away, and calls the destructor of its key if that exists.
abbrev pub destructed : ℕ → Tables → Option (ℕ × List (ℕ × ℕ)) → Option Tables
destructed thr tables none = some tables
destructed thr tables (some (key, others)) =
    let tables' = record tables { keys = record tables.keys { specific = others } } in
    if has key tables.keys.live then internal_task_finalizer thr tables' else some tables'

unfoldable pub thread_end : ℕ → Tables → Option Tables
thread_end thr tables = destructed thr tables (taken_key thr tables.keys.specific)

-- With a bucket, a semaphore `sem`, which is not NULL, room for a block, and a key that the system
-- makes, and for a thread that has no block yet: `thrd_create` succeeds if `pthread_create` and
-- `sem_init` do; the thread then has a block with its id, the semaphore, and 16 zeros for its name,
-- and other threads keep theirs. When the thread ends and no other one was made or ended since, the
-- tables are as they were, but for the variable `tcb_key`, which holds the deleted key.
pub create-end :
    (tables : Tables) (thr sem key : ℕ)
    → tables.buckets ≢ 0
    → tables.suspends ≢ 0
    → sem ≢ 0
    → length tables.tcbs < max_threads
    → list_search thr tables.tcbs ≡ none
    → (tables' : Tables) × (thrd_create true true 0 thr sem true (some key) tables
        ≡ (succeeded thr, tables'))
      × (list_search thr tables'.tcbs
          ≡ some (record { thr = thr; name = replicate 16 0; suspend = sem }))
      × ((t : ℕ) → t ≢ thr → list_search t tables'.tcbs ≡ list_search t tables.tcbs)
      × (thread_end thr tables'
          ≡ some (record {
            keys = record {
              tcb_key = key;
              live = tables.keys.live;
              specific = tables.keys.specific;
            };
            tcbs = tables.tcbs;
            suspends = tables.suspends;
            buckets = tables.buckets;
          }))
unfolding thrd_create internal_entry internal_task_finalizer thread_end taken_key list_insert
    list_delete list_search
create-end tables thr sem key some_bucket some_sem sem_ne room new =
    let a : (tables.buckets == 0) ≡ false = ground arith in
    let b : (tables.suspends == 0) ≡ false = ground arith in
    let c : ltb (length tables.tcbs) max_threads ≡ true = ground arith in
    let d : (thr == thr) ≡ true = ground arith in
    let f : (sem == 0) ≡ false = ground arith in
    let g : (key == key) ≡ true = ground arith in
    let one_less : (n : ℕ) → n ≢ 0 → n - 1 + 1 ≡ n = λ n ne. omega (arith, ne) in
    (
      record {
        keys = key_set thr (key_created (some key) tables.keys);
        tcbs = (thr, tcb_maker thr sem) ∷ tables.tcbs;
        suspends = tables.suspends - 1;
        buckets = tables.buckets - 1 + 1;
      },
      rw (a, b, list_insert, new, c),
      rw d,
      (λ t ne. ground arith),
      rw (g, d, internal_task_finalizer, list_delete, d)
          (rw (f, g, one_less tables.suspends some_sem, one_less tables.buckets some_bucket)),
    )

-- Calls for which `pthread_create` fails with `err`, one after the other.
abbrev pub failing : ℕ → ℕ → Tables → Tables
failing zero err tables = tables
failing (suc n) err tables = failing n err ((thrd_create true true err 0 0 true none tables).1)

-- After as many calls for which `pthread_create` fails as there are buckets, `thrd_create` fails
-- with ENOMEM, whatever the system could give.
pub buckets_used_up :
    (n err : ℕ) (tables : Tables) (thr sem : ℕ) (sem_ok : Bool) (key : Option ℕ)
    → err ≢ 0
    → tables.buckets ≤ n
    → (thrd_create true true 0 thr sem sem_ok key (failing n err tables)).0 ≡ failed enomem
unfolding thrd_create
buckets_used_up zero err tables thr sem sem_ok key ne none_left = ground arith
buckets_used_up (suc n) err tables thr sem sem_ok key ne few =
    buckets_used_up n err ((thrd_create true true err 0 0 true none tables).1) thr sem sem_ok key ne
      (ground arith)
