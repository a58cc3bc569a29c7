-- ===== src/Queue/Defs.antt =====
-- The queue of src/collections.c. Its values stand in the fragments of its own memory pool: the
-- link of a value covers that of the fragment.
use coop_tasks.Base.{
  ℕ, ◌+◌, ◌%◌, ◌||◌, Option, none, some, List, ◌==◌, if◌then◌else◌, size_max, inc64,
}
use coop_tasks.Heap.{
  Ptr, null, node, Cmd, pure, ◌>>=◌, ◌>>◌, fail, einval, enoent, load, store, set_next, memcpy,
}
use coop_tasks.Msq.{Ends, link_last, unlink_first}
use coop_tasks.Mempool.{
  Pool, Status, success, failure, mempool_create, mempool_destroy, mempool_alloc, mempool_free,
}

-- `struct queue`
pub record Queue : Type 0 where
  pub pool : Pool
  pub val_bytes : ℕ
  pub ends : Ends
  pub open ends use {head, tail}

-- `val` as a pointer to bytes that may be NULL.
abbrev pub Bytes : Type 0
Bytes = Option (List ℕ)

-- `memcpy(v->data, val, self->val_bytes)`, unless `val` is NULL.
unfoldable pub copy_in : ℕ → Ptr → Bytes → Cmd (Unit {0})
copy_in n v none = pure tt
copy_in n v (some val) = do
  c ← load v
  bytes ← memcpy n c.bytes val
  store v (record c { bytes = bytes })

-- The pool that a call returned for the one it was given, which is not NULL.
abbrev pub pool_or : Pool → Option Pool → Pool
pool_or old none = old
pool_or old (some new) = new

unfoldable pub queue_alloc_value : Queue → Bytes → Cmd (Ptr × Queue)
queue_alloc_value self val = do
  (v, pool) ← mempool_alloc (some self.pool)
  let self' = record self { pool = pool_or self.pool pool }
  if v == null
      then pure (null, self')
      else do set_next v (node 0 null); copy_in self'.val_bytes v val; pure (v, self')

abbrev pub value_bytes : ℕ
value_bytes = 16

-- `fresh` is what `calloc` finds for the pool. The head and tail that `atomic_init` sets are both
-- the first value.
unfoldable pub queue_create :
    Ptr → Option Queue → (val_bytes capacity : ℕ) → Cmd (Status × Option Queue)
queue_create fresh none val_bytes capacity = fail einval (failure, none)
queue_create fresh (some old) val_bytes capacity =
    if val_bytes == 0 || capacity == 0 then fail einval (failure, some old) else do
      let node_bytes = (value_bytes + val_bytes) % size_max
      (ret, pool) ← mempool_create fresh (some old.pool) node_bytes (inc64 capacity)
      let self = record old { pool = pool_or old.pool pool }
      elim ret [
        | failure ↦ pure (failure, some self)
        | success ↦ do
          (val, self') ← queue_alloc_value (record self { val_bytes = val_bytes }) none
          let first = node 0 val
          pure (success, some (record self' { ends = record { head = first; tail = first } }))
      ]

unfoldable pub queue_destroy : Option Queue → Cmd (Status × Option Queue)
queue_destroy none = fail einval (failure, none)
queue_destroy (some self) = do
  (_, pool) ← mempool_destroy (some self.pool)
  pure (success, some (record self { pool = pool_or self.pool pool }))

-- After the arguments are checked.
unfoldable pub enqueue_value : Queue → List ℕ → Cmd (Status × Queue)
enqueue_value self val = do
  (v, self') ← queue_alloc_value self (some val)
  if v == null
      then pure (failure, self')
      else do e ← link_last v self'.ends; pure (success, record self' { ends = e })

unfoldable pub queue_enqueue : Option Queue → Bytes → Cmd (Status × Option Queue)
queue_enqueue none val = fail einval (failure, none)
queue_enqueue (some self) none = fail einval (failure, some self)
queue_enqueue (some self) (some val) = do (s, self') ← enqueue_value self val; pure (s, some self')

-- `memcpy(val, next.val->data, self->val_bytes)`, unless `val` is NULL.
unfoldable pub copy_out : ℕ → Ptr → Bytes → Cmd Bytes
copy_out n next none = pure none
copy_out n next (some val) = do c ← load next; val' ← memcpy n val c.bytes; pure (some val')

-- The result, the queue and what `val` points to.
unfoldable pub dequeued : Queue → Option Ptr → Ends → Bytes → Cmd (Status × Queue × Bytes)
dequeued self none e val = pure (failure, record self { ends = e }, val)
dequeued self (some head) e val = do
  pool ← mempool_free (some self.pool) head
  pure (success, record self { ends = e; pool = pool_or self.pool pool }, val)

unfoldable pub queue_dequeue : Option Queue → Bytes → Cmd (Status × Option Queue × Bytes)
queue_dequeue none val = fail einval (failure, none, val)
queue_dequeue (some self) val = do
  (o, (e, val')) ← unlink_first enoent (copy_out self.val_bytes) (self.ends, val)
  (s, self', val'') ← dequeued self o e val'
  pure (s, some self', val'')
