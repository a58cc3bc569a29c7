-- ===== src/Mempool/Defs.antt =====
-- The memory pool of src/collections.c, as compiled with MEMPOOL_IMPLEMENTED_QUEUE, which
-- src/collections.h defines. A `struct memory_pool` is passed in and the changed one returned; a
-- pointer argument that may be NULL is an `Option`. Sizes and addresses are those of a 64-bit
-- target, on which a `struct memory_node` takes 16 bytes.
use coop_tasks.Base.{
  ℕ, zero, suc, ◌+◌, ◌^◌, ◌-◌, ◌*◌, ◌%◌, Bool, false, ◌&&◌, ◌||◌, Option, none, some, ◌==◌, leb,
  ltb, if◌then◌else◌, size_max, inc64, dec64, replicate,
}
use coop_tasks.Heap.{
  Ptr, null, node, Cell, Heap, Block, fault, ok, Cmd, pure, ◌>>=◌, ◌>>◌, fail, einval, enomem,
  write, set_next,
}
use coop_tasks.Msq.{Ends, link_last, unlink_first}

-- `struct memory_pool`
pub record Pool : Type 0 where
  pub pool : Ptr
  pub data_bytes : ℕ
  pub capacity : ℕ
  pub freeable : ℕ
  pub ends : Ends
  pub open ends use {head, tail}

-- `MEMORY_POOL_MAKER`
abbrev pub memory_pool_maker : Ptr → ℕ → ℕ → Pool
memory_pool_maker p b c = record {
  pool = p;
  data_bytes = b;
  capacity = c;
  freeable = 0;
  ends = record { head = node 0 null; tail = node 0 null };
}

-- The returned `0` and `-1`.
pub data Status : Type 0 where
  success : Status
  failure : Status

-- `*frag = MEMORY_FRAGMENT_MAKER()`, then the loop of `link_last`, then the count.
unfoldable pub internal_mempool_put : Pool → Ptr → Cmd Pool
internal_mempool_put self frag = do
  set_next frag (node 0 null)
  e ← link_last frag self.ends
  pure (record self { ends = e; freeable = inc64 self.freeable })

abbrev pub no_peek : Ptr → Unit {0} → Cmd (Unit {0})
no_peek next u = pure u

abbrev pub picked : Pool → Option Ptr → Ends → Ptr × Pool
picked self none e = (null, record self { ends = e })
picked self (some frag) e = (frag, record self { ends = e; freeable = dec64 self.freeable })

unfoldable pub internal_mempool_pick : Pool → Cmd (Ptr × Pool)
internal_mempool_pick self = do
  (o, (e, _)) ← unlink_first enomem no_peek (self.ends, tt)
  pure (picked self o e)

abbrev pub fragment_bytes : ℕ
fragment_bytes = 16

abbrev pub max : ℕ → ℕ → ℕ
max a b = if ltb b a then a else b

unfoldable pub internal_mempool_aligned_data_bytes : ℕ → ℕ
internal_mempool_aligned_data_bytes data_bytes =
    let frag_bytes = max data_bytes fragment_bytes in
    if frag_bytes % 16 == 0 then frag_bytes else (frag_bytes + (16 - frag_bytes % 16)) % size_max

-- The `i`-th fragment of the block.
abbrev pub fragment_at : Ptr → ℕ → ℕ → Ptr
fragment_at pool frag_bytes i = (pool + frag_bytes * i) % size_max

-- The loop of `internal_mempool_setup`: `k` rounds from the index `i` on.
unfoldable pub put_from : (k i : ℕ) → ℕ → Ptr → Pool → Cmd Pool
put_from zero i frag_bytes pool self = pure self
put_from (suc k) i frag_bytes pool self = do
  self' ← internal_mempool_put self (fragment_at pool frag_bytes i)
  put_from k (i + 1) frag_bytes pool self'

unfoldable pub internal_mempool_setup : Ptr → (data_bytes capacity : ℕ) → Cmd Pool
internal_mempool_setup pool data_bytes capacity = do
  set_next pool (node 0 null)
  let first = node 0 pool
  let self = record (memory_pool_maker pool data_bytes capacity) {
    ends = record { head = first; tail = first };
  }
  let frag_bytes = internal_mempool_aligned_data_bytes data_bytes
  put_from (inc64 capacity - 1) 1 frag_bytes pool self

-- `calloc` and `free`. `fresh` is the address that `calloc` finds, NULL if it finds none; the
-- block is read and written as cells of the given size.
abbrev pub zeroed : ℕ → Cell
zeroed size = record {
  next = node 0 null;
  backlink = null;
  key = 2 ^ 63;
  bytes = replicate (size - fragment_bytes) 0;
}

unfoldable pub fill : (k i : ℕ) → Ptr → ℕ → Option Cell → Heap → Heap
fill zero i base size c h = h
fill (suc k) i base size c h = write (fill k (i + 1) base size c h) (fragment_at base size i) c

abbrev pub set_block : (Ptr → Option Block) → Ptr → Option Block → Ptr → Option Block
set_block blocks p b a = if a == p then b else blocks a

unfoldable pub calloc : Ptr → (elements size : ℕ) → Cmd Ptr
calloc fresh elements size = if fresh == null then fail enomem null else λ w. ok fresh (record w {
  heap = fill elements 0 fresh size (some (zeroed size)) w.heap;
  blocks = set_block w.blocks fresh (some (record { elements = elements; size = size }));
})

abbrev pub free_block : Ptr → Option Block → Cmd (Unit {0})
free_block p none w = fault
free_block p (some b) w =
    ok tt (record w {
      heap = fill b.elements 0 p b.size none w.heap;
      blocks = set_block w.blocks p none;
    })

unfoldable pub free : Ptr → Cmd (Unit {0})
free p = if p == null then pure tt else λ w. free_block p (w.blocks p) w

unfoldable pub mempool_create :
    Ptr → Option Pool → (data_bytes capacity : ℕ) → Cmd (Status × Option Pool)
mempool_create fresh none data_bytes capacity = fail einval (failure, none)
mempool_create fresh (some old) data_bytes capacity =
    if data_bytes == 0 || capacity == 0 then fail einval (failure, some old) else do
      pool ← calloc fresh (inc64 capacity) (internal_mempool_aligned_data_bytes data_bytes)
      if pool == null
          then pure (failure, some (memory_pool_maker null data_bytes capacity))
          else (do
            self ← internal_mempool_setup pool data_bytes capacity
            pure (success, some self))

unfoldable pub mempool_destroy : Option Pool → Cmd (Status × Option Pool)
mempool_destroy none = fail einval (failure, none)
mempool_destroy (some self) = do free self.pool; pure (success, some (record self { pool = null }))

unfoldable pub mempool_clear : Option Pool → Cmd (Status × Option Pool)
mempool_clear none = fail einval (failure, none)
mempool_clear (some self) = do
  self' ← internal_mempool_setup self.pool self.data_bytes self.capacity
  pure (success, some self')

unfoldable pub mempool_alloc : Option Pool → Cmd (Ptr × Option Pool)
mempool_alloc none = fail einval (null, none)
mempool_alloc (some self) = do (frag, self') ← internal_mempool_pick self; pure (frag, some self')

unfoldable pub mempool_free : Option Pool → Ptr → Cmd (Option Pool)
mempool_free none ptr = pure none
mempool_free (some self) ptr =
    if ptr == null
    then pure (some self)
    else do self' ← internal_mempool_put self ptr; pure (some self')

-- The three functions return a `ssize_t`, here as a word of 64 bits, of which the highest is -1.
abbrev pub minus_one : ℕ
minus_one = size_max - 1

unfoldable pub mempool_data_bytes : Option Pool → Cmd ℕ
mempool_data_bytes none = fail einval minus_one
mempool_data_bytes (some self) = pure self.data_bytes

unfoldable pub mempool_capacity : Option Pool → Cmd ℕ
mempool_capacity none = fail einval minus_one
mempool_capacity (some self) = pure self.capacity

unfoldable pub mempool_freeable : Option Pool → Cmd ℕ
mempool_freeable none = fail einval minus_one
mempool_freeable (some self) = pure self.freeable

-- `frag_bytes * self->capacity + 1`, as the source writes it.
unfoldable pub mempool_contains : Option Pool → Ptr → Cmd Bool
mempool_contains none ptr = fail einval false
mempool_contains (some self) ptr =
    let frag_bytes = internal_mempool_aligned_data_bytes self.data_bytes in
    let pool_size = (frag_bytes * self.capacity + 1) % size_max in
    let pool_end = (self.pool + pool_size) % size_max in
    pure (leb self.pool ptr && ltb ptr pool_end)
