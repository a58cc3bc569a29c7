-- ===== src/LockFree/Delete.antt =====
-- `list_delete` takes a key out, where no compare-exchange fails spuriously.
use coop_tasks.Base.{
  ℕ, suc, ◌-◌, ◌<◌, ◌≤◌, ◌≡◌, ◌∈◌, refl, sym, ap, subst, ◌∙◌, true, false, some, none, Option, List,
  [], ◌∷◌, ◌++◌, arith, ◌==◌, length, inl, inr, erase, Bool, dec64,
}
use coop_tasks.Heap.{Ptr, null, World, enoent}
use coop_tasks.Heap.Chain.{last-mem}
use coop_tasks.Heap.Returns
use coop_tasks.Heap.Returns.{Returns, returns}
use coop_tasks.Mempool.{Pool, IsPool, free-Freed, Status, success, failure}
use coop_tasks.Msq.{OnlyAnswers}
use coop_tasks.Queue.{Bytes, LongEnough, Received, owns}
use coop_tasks.LockFree.Defs.{LockFreeList}
use coop_tasks.LockFree.Ops.{key_min, list_delete, delete_node, uint32_max}
use coop_tasks.LockFree.Span.{Entry, at_end, key_end, upto, from}
use coop_tasks.LockFree.Search.{search_from-ok, load_node}
use coop_tasks.LockFree.Spec.{Found, find, remove, items}
use coop_tasks.LockFree.Inv.{IsList, IsUserKey, IsList-Ends, rest-Span}
use coop_tasks.LockFree.Lookup.{place_key, found_used, found_room, found_val}
use coop_tasks.LockFree.Values.{read_val-Read}
use coop_tasks.LockFree.Change.{Above-from, Span-past, IsPool-used, at_end-mem}
use coop_tasks.LockFree.Unlink.{try_flag-true, help_flagged-unlinked, w4, w4-Unlinked}
use coop_tasks.LockFree.Deleted.{
  node_cell, q, prev, next, q_node, prev_node, not_prev, owned_before, gone-IsPool, elsewhere,
  deleted-IsList, gone_val,
}

pub no_more : (xs : List Bool) → length xs ≤ 0 → xs ≡ []
no_more [] le = refl
no_more (x ∷ xs) le = absurd (omega arith)

IsPool-answers :
    {u x : World} {self : Pool} {p : Ptr} {qs out : List Ptr}
    → IsPool u self p qs out
    → OnlyAnswers u x
    → IsPool x self p qs out
IsPool-answers {u} {x} is read =
    IsPool-used u x is (λ a m. ap (λ h. h a) read.heap)
      (λ a m.
        let (c, at) = is.cells a m in
        (c, record { ne_null = at.ne_null; cell = ap (λ h. h a) read.heap ∙ at.cell }))

-- What `list_delete` returns and leaves, by what the map holds at the key: `q` is the fragment that
-- the pool gets back.
abbrev pub DeletePost :
    World
    → ℕ
    → LockFreeList
    → List Entry
    → Ptr
    → (free out : List Ptr) → ℕ
    → Bytes
    → Option (List ℕ)
    → Status × LockFreeList × Bytes × ℕ
    → World
    → Type 0
DeletePost w readers self es p free out key val none (s, l, b, r) v =
    (s ≡ failure) × (l ≡ self) × (b ≡ val) × (r ≡ readers) × (v ≡ record w { errno = enoent })
DeletePost w readers self es p free out key val (some item) (s, l, b, r) v =
    (es' : List Entry) × (q : Ptr) × (s ≡ success)
    × IsList v l es' p (free ++ q ∷ []) (erase q out)
    × (q ∈ out)
    × (items es' ≡ remove key (items es))
    × Received self.val_bytes val item b
    × (r ≡ readers)
    × (l.val_bytes ≡ self.val_bytes)
    × (l.pool.capacity ≡ self.pool.capacity)
    × ((a : Ptr) → owns p free out a ≡ false → v.heap a ≡ w.heap a)
    × (v.blocks ≡ w.blocks)
    × (v.errno ≡ w.errno)
    × (v.spurious ≡ [])

module _ {w : World} {self : LockFreeList} {es : List Entry} {p : Ptr} {free out : List Ptr}
    (fuel readers key : ℕ) (val : Bytes) (is : IsList w self es p free out) (user : IsUserKey key)
    (long : LongEnough self.val_bytes val) (few : readers < uint32_max)
    (quiet : w.spurious ≡ []) where
  delete_node-Deleted :
      (f : Found key es)
      → Returns
          (DeletePost w readers self es p free out key val (some f.entry.val))
          (delete_node (suc fuel) readers self (at_end self.head f.before) f.entry.at val w)
  unfolding delete_node
  delete_node-Deleted f =
      let c = (prev_node is user f).cell in
      let d = (q_node is user f).cell in
      let prev_ = prev is user f in
      let q_ = q is user f in
      let next_ = next is user f in
      let at_prev = node_cell (prev_node is user f) in
      let at_q = node_cell (q_node is user f) in
      let apart = not_prev is user f in
      let ne : (prev_ == null) ≡ false = ground (arith, at_prev.ne_null) in
      let u = w4 w prev_ q_ next_ c d at_prev at_q apart quiet in
      let gone = w4-Unlinked w prev_ q_ next_ c d at_prev at_q apart quiet in
      rw
        (
          try_flag-true w prev_ q_ next_ c d at_prev at_q apart quiet fuel,
          ne,
          help_flagged-unlinked w prev_ q_ next_ c d at_prev at_q apart quiet fuel,
        )
        (Returns.bind
          (read_val-Read (suc fuel) readers self.val_bytes val u (gone_val is user f gone)
            (found_room is user f) long few (ground (arith, gone.quiet)))
          λ (b, r) x (got, kept, read).
            Returns.bind
              (free-Freed q_ (IsPool-answers (gone-IsPool is user f gone) read)
                (found_used is user f))
              λ o v (pool, made, put). rw made (
                returns (
                  f.before ++ f.behind,
                  q_,
                  refl,
                  deleted-IsList is user f gone read put,
                  found_used is user f,
                  sym f.remove_is,
                  subst (λ y. Received self.val_bytes val y b) (found_val is user f) got,
                  kept,
                  refl,
                  put.config.capacity,
                  (λ a o'.
                      elsewhere is user f gone read put a (ground (arith, found_used is user f))
                        (ground
                          (arith, owned_before is user f prev_ (at_end-mem self.head f.before)))
                        (ground (arith, last-mem p free))),
                  put.blocks ∙ read.blocks ∙ gone.blocks,
                  put.errno ∙ read.errno ∙ gone.errno,
                  no_more v.spurious (ground (arith, put.fewer, read.fewer, gone.quiet)),
                )))

  -- On a list, where no compare-exchange fails spuriously, for a user's key, NULL or a long enough
  -- buffer at `val`, fewer readers than UINT32_MAX, and fuel above the number of entries,
  -- `list_delete` ends without a fault. A key that is there succeeds: the list then holds the map
  -- without it, a fragment that was in use is the last free one, the value is in the buffer and
  -- the rest of the buffer as it was, and the readers, the cells outside the pool, the blocks and
  -- the error number are as they were. Any other key fails with ENOENT, and nothing but the error
  -- number changes.
  pub delete-Deleted :
      length es < suc fuel
      → Returns
          (DeletePost w readers self es p free out key val (find key (items es)))
          (list_delete (suc fuel) readers self key val w)
  unfolding list_delete
  delete-Deleted lt =
      let pred : dec64 key ≡ key - 1 = omega (arith, user.above_min, user.below_max) in
      let ends = IsList-Ends is (key - 1) (omega (arith, user.below_max)) in
      elim (place_key is user) [
        | inl f ↦
            let same : (f.entry.key == key) ≡ true = ground (arith, f.is_key) in
            let node_ = q_node is user f in
            rw
              (
                pred,
                search_from-ok w self.val_bytes self.head key_min es self.tail (key - 1) (suc fuel)
                    is.span ends lt,
                f.upto_pred,
                f.from_pred,
                load_node w node_,
                node_.is_key,
                same,
                f.find_is,
              )
              (delete_node-Deleted f)
        | inr m ↦
            let past =
              Span-past w self.val_bytes (at_end self.head (upto key es))
                (key_end key_min (upto key es)) is.last (from key es) (rest-Span is key)
                (Above-from key es) user.below_max in
            let other : (past.bound == key) ≡ false = ground (arith, past.above) in
            rw
              (
                pred,
                search_from-ok w self.val_bytes self.head key_min es self.tail (key - 1) (suc fuel)
                    is.span ends lt,
                m.upto_pred,
                m.from_pred,
                load_node w past.is,
                past.is.is_key,
                other,
                m.find_is,
              )
              (returns (refl, refl, refl, refl, refl))
      ]
