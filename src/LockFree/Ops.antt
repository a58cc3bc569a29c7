-- ===== src/LockFree/Ops.antt =====
-- The operations of the lock-free list of src/collections.c. `readers` is the counter of that name
-- that all lists share: it goes in and out of what reads or writes a value.
use Prim.Native.Nat.{bit_or}
use coop_tasks.Base.{
  ℕ, ◌+◌, ◌-◌, ◌^◌, ◌%◌, ◌||◌, Option, none, some, List, [], ◌∷◌, ◌++◌, ◌==◌, if◌then◌else◌,
  size_max, dec64, inc32, drop,
}
use coop_tasks.Heap.{
  Ptr, null, node, Cmd, pure, ◌>>=◌, ◌>>◌, fail, einval, enoent, load, set_next, agree, memcpy,
  Turn, again, leave, repeat,
}
use coop_tasks.Mempool.{Status, success, failure, mempool_create, mempool_destroy, mempool_free}
use coop_tasks.Queue.{Bytes, pool_or}
use coop_tasks.LockFree.Defs.{
  LockFreeList, unmarked, unflagged, copy_val, list_alloc_node, search_from, insert_once, try_flag,
  help_flagged,
}

abbrev pub eexist : ℕ
eexist = 17

-- `sizeof(struct list_node)`, and `INTPTR_MIN` and `INTPTR_MAX` as keys.
abbrev pub list_node_bytes : ℕ
list_node_bytes = 32

abbrev pub key_min : ℕ
key_min = 0

abbrev pub key_max : ℕ
key_max = size_max - 1

-- `fresh` is what `calloc` finds for the pool.
unfoldable pub list_create :
    Ptr → Option LockFreeList → (val_bytes capacity : ℕ) → Cmd (Status × Option LockFreeList)
list_create fresh none val_bytes capacity = fail einval (failure, none)
list_create fresh (some old) val_bytes capacity =
    if val_bytes == 0 || capacity == 0 then fail einval (failure, some old) else do
      let node_bytes = (list_node_bytes + val_bytes) % size_max
      (ret, pool) ← mempool_create fresh (some old.pool) node_bytes ((capacity + 2) % size_max)
      let self = record old { pool = pool_or old.pool pool }
      elim ret [
        | failure ↦ pure (failure, some self)
        | success ↦ do
          (head, self') ← list_alloc_node (record self { val_bytes = val_bytes }) key_min none
          (tail, self'') ← list_alloc_node (record self' { head = head }) key_max none
          set_next head (node (bit_or unmarked unflagged) tail)
          pure (success, some (record self'' { tail = tail }))
      ]

unfoldable pub list_destroy : Option LockFreeList → Cmd (Status × Option LockFreeList)
list_destroy none = fail einval (failure, none)
list_destroy (some self) = do
  (_, pool) ← mempool_destroy (some self.pool)
  pure (success, some (record self { pool = pool_or self.pool pool }))

unfoldable pub list_insert : ℕ → LockFreeList → ℕ → Bytes → Cmd (Status × LockFreeList)
list_insert fuel self key val = do
  (prev, next) ← search_from fuel key self.head
  c ← load prev
  if c.key == key then fail eexist (failure, self) else do
    (p, self') ← list_alloc_node self key val
    if p == null then pure (failure, self') else do
      (linked, _) ← repeat (insert_once fuel key p) fuel (prev, next)
      if linked then pure (success, self') else do
        pool ← mempool_free (some self'.pool) p
        fail eexist (failure, record self' { pool = pool_or self'.pool pool })

abbrev pub uint32_max : ℕ
uint32_max = 2 ^ 32 - 1

abbrev pub dec32 : ℕ → ℕ
dec32 n = (n + 2 ^ 32 - 1) % 2 ^ 32

-- A round of the loop that takes `readers` for a reader, and of the one that takes it for a writer.
unfoldable pub reading_once : ℕ → Unit {0} → Cmd (Turn ℕ × Unit {0})
reading_once readers u = if readers == uint32_max then pure (again, u) else do
  done ← agree (node readers null) (node readers null)
  if done then pure (leave (inc32 readers), u) else pure (again, u)

unfoldable pub writing_once : ℕ → Unit {0} → Cmd (Turn ℕ × Unit {0})
writing_once readers u =
    if readers == 0
    then (do
      done ← agree (node readers null) (node readers null)
      if done then pure (leave uint32_max, u) else pure (again, u))
    else pure (again, u)

-- `val`, unless it is NULL, gets the value of `target`; the second part is `readers`.
unfoldable pub read_val : ℕ → ℕ → ℕ → Ptr → Bytes → Cmd (Bytes × ℕ)
read_val fuel readers n target none = pure (none, readers)
read_val fuel readers n target (some val) = do
  (taken, _) ← repeat (reading_once readers) fuel tt
  c ← load target
  val' ← memcpy n val (drop 16 c.bytes)
  pure (some val', dec32 taken)

-- `target` gets the value `val`, unless that is NULL; the result is `readers`.
unfoldable pub write_val : ℕ → ℕ → ℕ → Ptr → Bytes → Cmd ℕ
write_val fuel readers n target none = pure readers
write_val fuel readers n target (some val) = do
  (taken, _) ← repeat (writing_once readers) fuel tt
  copy_val n target (some val)
  pure 0

-- After the key is found: the result, the list, what `val` points to, and `readers`.
unfoldable pub delete_node :
    ℕ → ℕ → LockFreeList → Ptr → Ptr → Bytes → Cmd (Status × LockFreeList × Bytes × ℕ)
delete_node fuel readers self prev del val = do
  (deleted, result) ← try_flag fuel prev del
  if result == null then pure tt else help_flagged fuel result del
  if deleted
      then (do
        (val', readers') ← read_val fuel readers self.val_bytes del val
        pool ← mempool_free (some self.pool) del
        pure (success, record self { pool = pool_or self.pool pool }, val', readers'))
      else pure (failure, self, val, readers)

unfoldable pub list_delete :
    ℕ → ℕ → LockFreeList → ℕ → Bytes → Cmd (Status × LockFreeList × Bytes × ℕ)
list_delete fuel readers self key val = do
  (prev, del) ← search_from fuel (dec64 key) self.head
  d ← load del
  if d.key == key
      then delete_node fuel readers self prev del val
      else fail enoent (failure, self, val, readers)

-- NULL if there is no such key.
unfoldable pub search_node : ℕ → LockFreeList → ℕ → Cmd Ptr
search_node fuel self key = do
  (curr, _) ← search_from fuel key self.head
  c ← load curr
  if c.key == key then pure curr else pure null

unfoldable pub list_search : ℕ → ℕ → LockFreeList → ℕ → Bytes → Cmd (Status × Bytes × ℕ)
list_search fuel readers self key val = do
  target ← search_node fuel self key
  if target == null then fail enoent (failure, val, readers) else do
    (val', readers') ← read_val fuel readers self.val_bytes target val
    pure (success, val', readers')

unfoldable pub list_update : ℕ → ℕ → LockFreeList → ℕ → Bytes → Cmd (Status × ℕ)
list_update fuel readers self key val = do
  target ← search_node fuel self key
  if target == null
      then fail enoent (failure, readers)
      else do readers' ← write_val fuel readers self.val_bytes target val; pure (success, readers')

-- What `list_dump` prints, as bytes; `show` is what `printf` makes of an unsigned number for PRIuPTR.
-- A key, which is signed, has 2 ^ 63 added here, and is converted as `printf` reads it.
abbrev pub as_unsigned : ℕ → ℕ
as_unsigned key = (key + 2 ^ 63) % 2 ^ 64

abbrev pub title : List ℕ
title =
    b'L' ∷ b'o' ∷ b'c' ∷ b'k' ∷ b'-' ∷ b'f' ∷ b'r' ∷ b'e' ∷ b'e' ∷ b' ' ∷ b'L' ∷ b'i' ∷ b's' ∷ b't'
    ∷ b':' ∷ 10 ∷ []

abbrev pub key_text : (ℕ → List ℕ) → ℕ → List ℕ
key_text show key = b' ' ∷ b'[' ∷ (show (as_unsigned key) ++ b']' ∷ [])

unfoldable pub dump_once :
    (ℕ → List ℕ) → Ptr → Ptr × List ℕ → Cmd (Turn (Unit {0}) × (Ptr × List ℕ))
dump_once show tail (curr, text) =
    if curr == tail
    then pure (leave tt, (curr, text))
    else do c ← load curr; pure (again, (c.next.frag, text ++ key_text show c.key))

unfoldable pub list_dump : (ℕ → List ℕ) → ℕ → LockFreeList → Cmd (List ℕ)
list_dump show fuel self = do
  h ← load self.head
  (_, (_, text)) ← repeat (dump_once show self.tail) fuel (h.next.frag, title)
  pure (text ++ 10 ∷ [])
