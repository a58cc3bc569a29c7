-- ===== src/LockFree/Defs.antt =====
-- The nodes of the lock-free list of src/collections.c, and what walks and changes its links. A loop
-- takes fuel: `fuel` rounds at most.
use Prim.Native.Nat.{bit_and, bit_or}
use coop_tasks.Base.{
  ℕ, zero, suc, Bool, true, false, ◌&&◌, none, some, ◌==◌, leb, if◌then◌else◌, dec64, take, drop,
  ◌++◌,
}
use coop_tasks.Heap.{
  Ptr, null, Node, node, out_of_fuel, Cmd, pure, ◌>>=◌, ◌>>◌, load, store, cas_next, memcpy, Turn,
  again, leave, repeat, set_errno, enoent,
}
use coop_tasks.Mempool.{Pool, mempool_alloc}
use coop_tasks.Queue.{Bytes, pool_or}

-- `struct list`
pub record LockFreeList : Type 0 where
  pub pool : Pool
  pub val_bytes : ℕ
  pub head : Ptr
  pub tail : Ptr

-- The bits of a mark.
abbrev pub unmarked : ℕ
unmarked = 0

abbrev pub marked : ℕ
marked = 1

abbrev pub marked_mask : ℕ
marked_mask = 1

abbrev pub unflagged : ℕ
unflagged = 0

abbrev pub flagged : ℕ
flagged = 2

abbrev pub flagged_mask : ℕ
flagged_mask = 2

-- A `struct list_node_ref` is a link with the mark in the place of the count.
abbrev pub is_marked : Node → Bool
is_marked ref = bit_and ref.count marked_mask == marked

abbrev pub is_flagged : Node → Bool
is_flagged ref = bit_and ref.count flagged_mask == flagged

abbrev pub make_ref : Ptr → ℕ → ℕ → Node
make_ref p m f = node (bit_or m f) p

abbrev pub get_marked_ref : Ptr → Node
get_marked_ref p = make_ref p marked unflagged

abbrev pub get_unmarked_ref : Ptr → Node
get_unmarked_ref p = make_ref p unmarked unflagged

abbrev pub get_flagged_ref : Ptr → Node
get_flagged_ref p = make_ref p unmarked flagged

abbrev pub get_unflagged_ref : Ptr → Node
get_unflagged_ref p = make_ref p unmarked unflagged

abbrev pub not : Bool → Bool
not true = false
not false = true

-- `memcpy(node->val, val, n)`, unless `val` is NULL. The value is behind the backlink and the key.
unfoldable pub copy_val : ℕ → Ptr → Bytes → Cmd (Unit {0})
copy_val n p none = pure tt
copy_val n p (some val) = do
  c ← load p
  val' ← memcpy n (drop 16 c.bytes) val
  store p (record c { bytes = take 16 c.bytes ++ val' })

unfoldable pub list_alloc_node : LockFreeList → ℕ → Bytes → Cmd (Ptr × LockFreeList)
list_alloc_node self key val = do
  (p, pool) ← mempool_alloc (some self.pool)
  let self' = record self { pool = pool_or self.pool pool }
  if p == null then pure (null, self') else do
    c ← load p
    store p (record c { next = node (bit_or unmarked unflagged) null; backlink = null; key = key })
    copy_val self'.val_bytes p val
    pure (p, self')

unfoldable pub help_marked : Ptr → Ptr → Cmd (Unit {0})
help_marked prev del = do
  d ← load del
  done ← cas_next prev (get_flagged_ref del) (get_unflagged_ref d.next.frag)
  pure tt

-- A round of the inner loop of `search_from`, over `next`.
unfoldable pub pass_once : Ptr → Ptr → Cmd (Turn (Unit {0}) × Ptr)
pass_once curr next = do
  n ← load next
  if not (is_marked n.next) then pure (leave tt, next) else do
    c ← load curr
    if is_marked c.next && (c.next.frag == next) then pure (leave tt, next) else do
      if c.next.frag == next then help_marked curr next else pure tt
      c' ← load curr
      pure (again, c'.next.frag)

-- A round of its outer loop, over `curr` and `next`.
unfoldable pub search_once : ℕ → ℕ → Ptr × Ptr → Cmd (Turn (Unit {0}) × (Ptr × Ptr))
search_once fuel key (curr, next) = do
  n ← load next
  if leb n.key key
      then (do
        (_, next') ← repeat (pass_once curr) fuel next
        n' ← load next'
        if leb n'.key key
            then (do c ← load next'; pure (again, (next', c.next.frag)))
            else pure (again, (curr, next')))
      else pure (leave tt, (curr, next))

-- What `*curr_ptr` and `*next_ptr` are set to.
unfoldable pub search_from : ℕ → ℕ → Ptr → Cmd (Ptr × Ptr)
search_from fuel key curr = do
  c ← load curr
  (_, s) ← repeat (search_once fuel key) fuel (curr, c.next.frag)
  pure s

-- `try_mark` and `help_flagged` call each other: the one with less fuel is passed.
abbrev pub help_flagged_by : (Ptr → Cmd (Unit {0})) → Ptr → Ptr → Cmd (Unit {0})
help_flagged_by mark prev del = do
  d ← load del
  store del (record d { backlink = prev })
  d' ← load del
  if is_marked d'.next then pure tt else mark del
  help_marked prev del

unfoldable pub try_mark : ℕ → Ptr → Cmd (Unit {0})
try_mark zero del = λ _. out_of_fuel
try_mark (suc fuel) del = do
  d ← load del
  let next = d.next.frag
  done ← cas_next del (get_unmarked_ref next) (get_marked_ref next)
  result ← load del
  if not (is_marked result.next) && is_flagged result.next
      then help_flagged_by (try_mark fuel) del result.next.frag
      else pure tt
  d' ← load del
  if is_marked d'.next then pure tt else try_mark fuel del

unfoldable pub help_flagged : ℕ → Ptr → Ptr → Cmd (Unit {0})
help_flagged fuel prev del = help_flagged_by (try_mark fuel) prev del

-- `while (is_marked_atomic(prev->succ)) prev = prev->backlink;`
unfoldable pub back_once : Ptr → Cmd (Turn (Unit {0}) × Ptr)
back_once prev = do
  p ← load prev
  if is_marked p.next then pure (again, p.backlink) else pure (leave tt, prev)

unfoldable pub back : ℕ → Ptr → Cmd Ptr
back fuel prev = do (_, prev') ← repeat back_once fuel prev; pure prev'

-- A reference that is flagged, and not marked, is helped on.
unfoldable pub help_result : ℕ → Ptr → Cmd (Unit {0})
help_result fuel prev = do
  r ← load prev
  if not (is_marked r.next) && is_flagged r.next
      then help_flagged fuel prev r.next.frag
      else pure tt

-- A round of the loop of `list_insert`: `true` if `p` is linked, `false` if the key is there.
unfoldable pub search_again : ℕ → ℕ → Ptr → Cmd (Turn Bool × (Ptr × Ptr))
search_again fuel key prev = do
  (prev', next') ← search_from fuel key prev
  c ← load prev'
  if c.key == key then pure (leave false, (prev', next')) else pure (again, (prev', next'))

unfoldable pub insert_once : ℕ → ℕ → Ptr → Ptr × Ptr → Cmd (Turn Bool × (Ptr × Ptr))
insert_once fuel key p (prev, next) = do
  c ← load prev
  if is_flagged c.next
      then (do help_flagged fuel prev c.next.frag; search_again fuel key prev)
      else do
        d ← load p
        store p (record d { next = make_ref next unmarked unflagged })
        done ← cas_next prev (make_ref next unmarked unflagged) (make_ref p unmarked unflagged)
        if done
            then pure (leave true, (prev, next))
            else do help_result fuel prev; prev' ← back fuel prev; search_again fuel key prev'

-- A round of the loop of `try_flag`: the result, and `*result_ptr`.
unfoldable pub flag_once : ℕ → Ptr → Ptr → Cmd (Turn (Bool × Ptr) × Ptr)
flag_once fuel target prev = do
  p ← load prev
  if (p.next.frag == target) && (not (is_marked p.next) && is_flagged p.next)
      then pure (leave (false, prev), prev)
      else do
        done ← cas_next prev (get_unflagged_ref target) (get_flagged_ref target)
        if done then pure (leave (true, prev), prev) else do
          r ← load prev
          if (r.next.frag == target) && (not (is_marked r.next) && is_flagged r.next)
              then pure (leave (false, prev), prev)
              else do
                prev' ← back fuel prev
                t ← load target
                (prev'', del) ← search_from fuel (dec64 t.key) prev'
                if del == target
                    then pure (again, prev'')
                    else do set_errno enoent; pure (leave (false, null), prev'')

unfoldable pub try_flag : ℕ → Ptr → Ptr → Cmd (Bool × Ptr)
try_flag fuel prev target = do (r, _) ← repeat (flag_once fuel target) fuel prev; pure r
