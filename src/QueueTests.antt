-- ===== src/QueueTests.antt =====
-- The theorems at a concrete queue.
use coop_tasks.Base.{◌≡◌, refl, Option, none, some, List, [], ◌∷◌, take, arith}
use coop_tasks.Heap.{World, node}
use coop_tasks.Heap.Returns.{Returns, outcome}
use coop_tasks.Mempool.{Status, InSpace, internal_mempool_aligned_data_bytes, fragment_at}
use coop_tasks.Queue.{
  Queue, CreatePost, create-IsQueue, EnqueuePost, enqueue-Enqueued, DequeuePost, dequeue-Dequeued,
  queue_create, queue_enqueue, queue_dequeue, size_of, represents, enqueue, dequeue, Agrees,
  spec_run, code_run, code_run-Agrees, spec_call, Call, done, full, empty, item,
}
use coop_tasks.MempoolTests.{world, no_pool}

abbrev pub no_queue : Queue
no_queue = record {
  pool = no_pool;
  val_bytes = 0;
  ends = record { head = node 0 0; tail = node 0 0 };
}

queue_space : InSpace 4096 18 2
unfolding internal_mempool_aligned_data_bytes
queue_space = record { ne_null = omega arith; small = omega arith; fits = omega arith }

-- A queue of one item of two bytes.
create-IsQueue_example : Returns (CreatePost 4096 2 1) (queue_create 4096 (some no_queue) 2 1 world)
create-IsQueue_example =
    create-IsQueue {n = 2} {capacity = 1} queue_space (omega arith) (omega arith) (omega arith)
      no_queue world

made : (a : Status × Option Queue) × (w : World) × CreatePost 4096 2 1 a w
made = outcome (
    create-IsQueue {n = 2} {capacity = 1} queue_space (omega arith) (omega arith) (omega arith)
      no_queue world)

enqueue-Enqueued_example :
    Returns
      (EnqueuePost made.1 made.2.0 4096 []
        (fragment_at 4096 (size_of 2) 1)
        (fragment_at 4096 (size_of 2) 2)
        []
        (4096 ∷ [])
        []
        (5 ∷ 6 ∷ []))
      (queue_enqueue (some made.2.0) (some (5 ∷ 6 ∷ [])) made.1)
enqueue-Enqueued_example = enqueue-Enqueued (5 ∷ 6 ∷ []) made.2.3 (omega (arith, made.2.4))

-- The queue with one item.
filled :
    (a : Status × Option Queue) × (w : World) × EnqueuePost made.1 made.2.0 4096 []
      (fragment_at 4096 (size_of 2) 1)
      (fragment_at 4096 (size_of 2) 2)
      []
      (4096 ∷ [])
      []
      (5 ∷ 6 ∷ [])
      a
      w
filled = outcome (enqueue-Enqueued (5 ∷ 6 ∷ []) made.2.3 (omega (arith, made.2.4)))

dequeue-Dequeued_example :
    Returns
      (DequeuePost filled.1 filled.2.0 4096
        (fragment_at 4096 (size_of 2) 1)
        []
        (fragment_at 4096 (size_of 2) 2)
        []
        (fragment_at 4096 (size_of 2) 1 ∷ 4096 ∷ [])
        (take made.2.0.val_bytes (5 ∷ 6 ∷ []))
        []
        none)
      (queue_dequeue (some filled.2.0) none filled.1)
dequeue-Dequeued_example = dequeue-Dequeued none filled.2.2.is tt

abbrev calls : List Call
calls =
    enqueue (1 ∷ 2 ∷ []) ∷ enqueue (3 ∷ 4 ∷ []) ∷ dequeue (0 ∷ 0 ∷ []) ∷ dequeue (0 ∷ 0 ∷ []) ∷ []

code_run-Agrees_example :
    Returns (Agrees 2 1 (spec_run 2 1 calls [])) (code_run 2 calls (some made.2.0) made.1)
code_run-Agrees_example =
    code_run-Agrees calls (represents made.2.3 made.2.4 made.2.5) (omega arith)

spec_run_test : spec_run 2 1 calls [] ≡ (done ∷ full ∷ item (1 ∷ 2 ∷ []) ∷ empty ∷ [], [])
unfolding spec_run spec_call
spec_run_test = refl
