-- ===== src/ThreadPool/Create.antt =====
-- `thrdpool_create`, `worker_creator` and `thrdpool_destroy` of src/thread_pool.c: the memory and the
-- queues that a pool takes and gives back, and the promise that its making waits for.
use coop_tasks.Base.{
  ℕ, zero, suc, ◌+◌, ◌≡◌, ◌-◌, ◌<◌, ◌≤◌, refl, ap, ◌∙◌, Bool, true, false, Option, none, some, List,
  [], ◌∷◌, ◌||◌, arith, ◌==◌, if◌then◌else◌, erase,
}
use coop_tasks.Future.{
  Promise, Outcome, returned, waiting, crashed, promise_initializer, promise_get_future,
  promise_set_value, future_get_value,
}
use coop_tasks.ThreadPool.Steps.{Thread, fail}
use coop_tasks.ThreadPool.Cancel.{Event, cancel_workers, CancelledAll, cancel_workers-CancelledAll}

-- What is in use: the blocks of pools, and the queues. Queue 0 is the pool's, and queue `i + 1` that
-- of the worker at the index `i`.
pub record Held : Type 0 where
  pub blocks : ℕ
  pub queues : List ℕ

-- A pool, as far as making and destroying go; `has_thr` tells of each worker whether `thrd_create`
-- has set its `thr`.
pub record Handle : Type 0 where
  pub num_workers : ℕ
  pub has_thr : ℕ → Bool
  pub prms : Promise

-- What a call came to; `stuck` never returns, and `undefined` cancels a thread that is not there.
pub data Ended (A : Type 0) : Type 0 where
  ended : A → Ended A
  stuck : Ended A
  undefined : Ended A

-- `queue_create`, where it succeeds, and `queue_destroy`.
abbrev pub take_queue : ℕ → Held → Held
take_queue k held = record held { queues = k ∷ held.queues }

abbrev pub give_queue : ℕ → Held → Held
give_queue k held = record held { queues = erase k held.queues }

abbrev pub free_block : Held → Held
free_block held = record held { blocks = held.blocks - 1 }

-- The local queues of `n` workers from the index `i` on. `room` tells of each queue whether there is
-- memory for it.
unfoldable pub create_locals : (ℕ → Bool) → (i n : ℕ) → Held → Bool × Held
create_locals room i zero held = (true, held)
create_locals room i (suc n) held =
    let rest = create_locals room (suc i) n (take_queue (suc i) held) in
    if room (suc i) then rest else (false, held)

unfoldable pub destroy_locals : ℕ → Held → Held
destroy_locals zero held = held
destroy_locals (suc i) held = destroy_locals i (give_queue (suc i) held)

abbrev pub given_back : Handle → Held → Option (List Event) → Ended (List Event × Held)
given_back self held none = undefined
given_back self held (some events) =
    ended (events, free_block (give_queue 0 (destroy_locals self.num_workers held)))

abbrev pub destroyed :
    (ℕ → Bool) → Handle → Held → Outcome (Bool × Option ℕ) → Ended (List Event × Held)
destroyed runs self held waiting = stuck
destroyed runs self held crashed = stuck
destroyed runs self held (returned e r) =
    given_back self held (cancel_workers self.has_thr runs self.num_workers)

-- It waits until `prms` is set.
unfoldable pub thrdpool_destroy : (ℕ → Bool) → Option Handle → Held → Ended (List Event × Held)
thrdpool_destroy runs none held = ended ([], held)
thrdpool_destroy runs (some self) held =
    destroyed runs self held (future_get_value (some self.prms.ftr) none)

-- `promise_get_future(&self->prms)`
abbrev pub with_future : Promise → Outcome (Bool × Option Promise) → Promise
with_future old (returned e (ok, some prms)) = prms
with_future old _ = old

abbrev pub after_destroy : Ended (List Event × Held) → Ended (Option Handle × Held)
after_destroy stuck = stuck
after_destroy undefined = undefined
after_destroy (ended (events, held)) = ended (none, held)

abbrev pub with_locals : (thr_ok : Bool) → Handle → Bool × Held → Ended (Option Handle × Held)
with_locals thr_ok self (false, held) = ended (none, free_block (give_queue 0 held))
with_locals true self (true, held) = ended (some (record self { has_thr = λ i. i == 0 }), held)
with_locals false self (true, held) = after_destroy (thrdpool_destroy (λ _. false) (some self) held)

-- `memory` tells whether there is memory for the pool, and `thr_ok` whether `thrd_create` makes the
-- first thread. The error number is left out.
unfoldable pub thrdpool_create :
    (memory : Bool) (room : ℕ → Bool) (thr_ok : Bool) (num_workers : ℕ)
    → Held
    → Ended (Option Handle × Held)
thrdpool_create memory room thr_ok zero held = ended (none, held)
thrdpool_create false room thr_ok (suc n) held = ended (none, held)
thrdpool_create true room thr_ok (suc n) held =
    let held' = record held { blocks = held.blocks + 1 } in
    let prms = with_future promise_initializer (promise_get_future (some promise_initializer)) in
    if room 0
    then with_locals thr_ok (record { num_workers = suc n; has_thr = λ _. false; prms = prms })
        (create_locals room 0 (suc n) (take_queue 0 held'))
    else ended (none, free_block held')

-- The threads behind the first, of which `made` tells whether `thrd_create` makes them.
unfoldable pub create_workers : (ℕ → Bool) → ℕ → List Thread → List Thread
create_workers made i [] = []
create_workers made i (t ∷ ts) =
    (if made i then t else record t { status = fail }) ∷ create_workers made (suc i) ts

abbrev pub behind_first : (ℕ → Bool) → List Thread → List Thread
behind_first made [] = []
behind_first made (t ∷ ts) = t ∷ create_workers made 1 ts

abbrev pub promised : Handle → Outcome (Bool × Option Promise) → Handle
promised self o = record self { prms = with_future self.prms o }

-- `worker_creator` up to its call of `worker`.
unfoldable pub worker_creator : (ℕ → Bool) → Handle → List Thread → Handle × List Thread
worker_creator made self ts = (
  promised (record self { has_thr = λ i. (i == 0) || made i })
      (promise_set_value (some self.prms) 0),
  behind_first made ts,
)

-- The queues of `n` workers from the index `i` on, the last first, before others.
abbrev pub with_queues : (i n : ℕ) → List ℕ → List ℕ
with_queues i zero qs = qs
with_queues i (suc n) qs = with_queues (suc i) n (suc i ∷ qs)

create_locals-all :
    (room : ℕ → Bool) (i n : ℕ) (held : Held)
    → ((k : ℕ) → k ≤ i + n → room k ≡ true)
    → create_locals room i n held ≡ (true, record held { queues = with_queues i n held.queues })
unfolding create_locals
create_locals-all room i zero held all = refl
create_locals-all room i (suc n) held all =
    rw (all (suc i) (omega arith))
      (create_locals-all room (suc i) n (take_queue (suc i) held) (λ k le. all k (omega arith)))

create_locals-short :
    (room : ℕ → Bool) (i j n : ℕ) (held : Held)
    → ((k : ℕ) → k ≤ i + j → room k ≡ true)
    → room (suc (i + j)) ≡ false
    → j < n
    → create_locals room i n held ≡ (false, record held { queues = with_queues i j held.queues })
unfolding create_locals
create_locals-short room i j zero held all no_room lt = elim lt [ ]
create_locals-short room i zero (suc n) held all no_room lt =
    let here : room (suc i) ≡ false = ap room (omega arith) ∙ no_room in rw here
create_locals-short room i (suc j) (suc n) held all no_room lt = rw (all (suc i) (omega arith)) (
    create_locals-short room (suc i) j n (take_queue (suc i) held) (λ k le. all k (omega arith))
      (ap room (omega arith) ∙ no_room) (omega arith))

destroy_locals-with_queues :
    (i n : ℕ) (held : Held) (qs : List ℕ)
    → destroy_locals (i + n) (record held { queues = with_queues i n qs })
      ≡ destroy_locals i (record held { queues = qs })
unfolding destroy_locals
destroy_locals-with_queues i zero held qs =
    let same : i + 0 ≡ i = omega arith in
    ap (λ k. destroy_locals k (record held { queues = qs })) same
destroy_locals-with_queues i (suc n) held qs =
    let same : (suc i == suc i) ≡ true = ground arith in
    let next : i + suc n ≡ suc i + n = omega arith in
    ap (λ k. destroy_locals k (record held { queues = with_queues (suc i) n (suc i ∷ qs) })) next
    ∙ destroy_locals-with_queues (suc i) n held (suc i ∷ qs)
    ∙ rw same

erase-with_queues :
    (i j : ℕ) (qs : List ℕ) → erase 0 (with_queues i j qs) ≡ with_queues i j (erase 0 qs)
erase-with_queues i zero qs = refl
erase-with_queues i (suc j) qs =
    let ne : (0 == suc i) ≡ false = ground arith in erase-with_queues (suc i) j (suc i ∷ qs) ∙ rw ne

module _ (room : ℕ → Bool) (n : ℕ) (held : Held) where
  -- What is in use once a pool has its block and its own queue.
  abbrev begun : Held
  begun = record { blocks = held.blocks + 1; queues = 0 ∷ held.queues }

  one_more : held.blocks + 1 - 1 ≡ held.blocks
  one_more = omega arith

  destroyed_again :
      destroy_locals (suc n) (record begun { queues = with_queues 0 (suc n) begun.queues }) ≡ begun
  unfolding destroy_locals
  destroyed_again =
      let same : suc n ≡ 0 + suc n = omega arith in
      ap (λ k. destroy_locals k (record begun { queues = with_queues 0 (suc n) begun.queues })) same
      ∙ destroy_locals-with_queues 0 (suc n) begun begun.queues

  all_locals :
      ((k : ℕ) → k ≤ suc n → room k ≡ true)
      → create_locals room 0 (suc n) begun
        ≡ (true, record begun { queues = with_queues 0 (suc n) begun.queues })
  all_locals all = create_locals-all room 0 (suc n) begun (λ k le. all k (omega arith))

  -- With memory for the pool and all its queues, and if all threads can be made, `thrdpool_create`
  -- makes a pool of one worker or more. To destroy it waits until `worker_creator` has set the
  -- promise; then it cancels each worker's thread once, the last worker's first, joins, in that
  -- order, just those for which `thrd_cancel` returned zero, each directly after it was cancelled,
  -- and gives back the memory and all queues.
  pub create-destroy :
      ((k : ℕ) → k ≤ suc n → room k ≡ true)
      → (runs made : ℕ → Bool) (ts : List Thread) → ((i : ℕ) → i ≤ n → made i ≡ true)
      → (self : Handle) × (held' : Held) × (thrdpool_create true room true (suc n) held
          ≡ ended (some self, held'))
        × (thrdpool_destroy runs (some self) held' ≡ stuck)
        × ((events : List Event) × (thrdpool_destroy runs
                (some ((worker_creator made self ts).0))
                held'
              ≡ ended (events, held))
            × CancelledAll runs (suc n) events)
  unfolding thrdpool_create thrdpool_destroy worker_creator promise_get_future promise_set_value
      future_get_value
  create-destroy all runs made ts threads =
      let (events, is, order) =
        cancel_workers-CancelledAll (λ i. (i == 0) || made i) runs (suc n)
          (λ i lt. ground (arith, threads i)) in
      (
        record {
          num_workers = suc n;
          has_thr = λ i. i == 0;
          prms = record promise_initializer { connected = true };
        },
        record begun { queues = with_queues 0 (suc n) begun.queues },
        rw (all 0 (omega arith), all_locals all),
        refl,
        (events, rw (is, destroyed_again, one_more), order),
      )

  -- With memory for the pool and all its queues, but no first thread, `thrdpool_create` never
  -- returns.
  pub create-stuck :
      ((k : ℕ) → k ≤ suc n → room k ≡ true) → thrdpool_create true room false (suc n) held ≡ stuck
  unfolding thrdpool_create thrdpool_destroy promise_get_future future_get_value
  create-stuck all = rw (all 0 (omega arith), all_locals all)

  -- With memory for the pool, its own queue, and those of the first `j` workers, but not for the
  -- next worker's, `thrdpool_create` returns NULL, and the queues of these `j` workers stay in use.
  pub create-leaves :
      (j : ℕ) (thr_ok : Bool)
      → ((k : ℕ) → k ≤ j → room k ≡ true)
      → room (suc j) ≡ false
      → j ≤ n
      → thrdpool_create true room thr_ok (suc n) held
        ≡ ended (none, record held { queues = with_queues 0 j held.queues })
  unfolding thrdpool_create
  create-leaves j thr_ok all no_room le = rw (
    all 0 (omega arith),
    create_locals-short room 0 j (suc n) begun (λ k le'. all k (omega arith))
        (ap room (omega arith) ∙ no_room) (omega arith),
    erase-with_queues 0 j begun.queues,
    one_more,
  )
