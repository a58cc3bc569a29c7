-- ===== src/LockFree/Insert.antt =====
-- `list_insert` adds a key, or reports that it is there, or that the list is full.
use coop_tasks.Base.{
  ℕ, ◌+◌, ◌<◌, ◌≤◌, ◌≡◌, ◌∉◌, refl, sym, ◌∙◌, true, false, some, none, Option, List, [], ◌∷◌, ◌++◌,
  arith, ◌==◌, length, take, inl, inr, mem_ne,
}
use coop_tasks.Heap.{Ptr, null, World, ok, enomem}
use coop_tasks.Heap.Returns
use coop_tasks.Heap.Returns.{Returns, returns}
use coop_tasks.Mempool.{Status, success, failure}
use coop_tasks.LockFree.Defs.{LockFreeList}
use coop_tasks.LockFree.Ops.{key_min, list_insert, eexist}
use coop_tasks.LockFree.Span.{Entry, Span-IsNode, at_end, key_end, upto, from}
use coop_tasks.LockFree.Search.{search_from-ok, load_node}
use coop_tasks.LockFree.Spec.{Found, find, put, items, put-upto-from}
use coop_tasks.LockFree.Inv.{IsList, IsUserKey, IsList-Ends, rest-Span}
use coop_tasks.LockFree.Lookup.{place_key, at_end-append, found_node}
use coop_tasks.LockFree.Change.{at_end-mem}
use coop_tasks.LockFree.Alloc.{alloc_node-NodeMade, alloc_node-empty}
use coop_tasks.LockFree.Link.{link-Linked}
use coop_tasks.LockFree.Inserted.{
  upto-from_again, from-from, length-from, low-lt, owned_before, ne_new, not_new, tail_out, u-Span,
  u_Ends, elsewhere, inserted-IsList,
}

-- What `list_insert` returns and leaves on a list with room, by what the map holds at the key.
abbrev pub InsertPost :
    World
    → LockFreeList
    → List Entry
    → (p q : Ptr) → (free out : List Ptr) → ℕ
    → List ℕ
    → Option (List ℕ)
    → Status × LockFreeList
    → World
    → Type 0
InsertPost w self es p q free out key val (some old) (s, l) v =
    (s ≡ failure) × (l ≡ self) × (v ≡ record w { errno = eexist })
InsertPost w self es p q free out key val none (s, l) v =
    (es' : List Entry) × (s ≡ success)
    × IsList v l es' q free (p ∷ out)
    × (items es' ≡ put key (take self.val_bytes val) (items es))
    × (l.val_bytes ≡ self.val_bytes)
    × (l.pool.capacity ≡ self.pool.capacity)
    × ((a : Ptr) → a ∉ p ∷ out → v.heap a ≡ w.heap a)
    × (v.blocks ≡ w.blocks)
    × (v.errno ≡ w.errno)
    × (length v.spurious ≤ length w.spurious)

module _ {w : World} {self : LockFreeList} {es : List Entry} {p : Ptr} {free out : List Ptr}
    (fuel key : ℕ) (val : List ℕ) (is : IsList w self es p free out) (user : IsUserKey key)
    (lt : length es < fuel) where
  insert-Found :
      Found key es
      → list_insert fuel self key (some val) w ≡ ok (failure, self) (record w { errno = eexist })
  unfolding list_insert
  insert-Found f =
      let node_ = found_node is user f in
      let same : (f.entry.key == key) ≡ true = ground (arith, f.is_key) in
      rw (
        search_from-ok w self.val_bytes self.head key_min es self.tail key fuel is.span
            (IsList-Ends is key user.below_max) lt,
        f.upto_is,
        at_end-append self.head f.before f.entry,
        load_node w node_,
        node_.is_key,
        same,
      )

module _ {w : World} {self : LockFreeList} {es : List Entry} {p : Ptr} {out : List Ptr}
    (fuel key : ℕ) (val : List ℕ) where
  -- On a list with a free fragment behind the next one, for a user's key, a whole value at `val`,
  -- and fuel above the number of entries and of spurious failures ahead, `list_insert` ends
  -- without a fault. A new key succeeds: the list then holds the map with the key and its value in
  -- their place, in the fragment `p`, and cells that were not in use, but for `p`, the blocks and
  -- the error number are as they were. A key that is there fails with EEXIST, and nothing but the
  -- error number changes.
  pub insert-Inserted :
      {q : Ptr} {free : List Ptr}
      → IsList w self es p (q ∷ free) out
      → IsUserKey key
      → self.val_bytes ≤ length val
      → length es + length w.spurious < fuel
      → Returns
          (InsertPost w self es p q free out key val (find key (items es)))
          (list_insert fuel self key (some val) w)
  unfolding list_insert
  insert-Inserted {q} {free} is user long lt = elim (place_key is user) [
    | inl f ↦
        rw (insert-Found fuel key val is user (omega (arith, lt)) f, f.find_is)
          (returns (refl, refl, refl))
    | inr m ↦
        let at = Span-IsNode w.heap self.val_bytes _ _ (from key es) self.tail (rest-Span is key) in
        let ne : (key_end key_min (upto key es) == key) ≡ false = ground (arith, m.end_ne) in
        rw
          (
            search_from-ok w self.val_bytes self.head key_min es self.tail key fuel is.span
                (IsList-Ends is key user.below_max) (omega (arith, lt)),
            load_node w at,
            at.is_key,
            ne,
            m.find_is,
          )
          (Returns.bind
            (alloc_node-NodeMade key (some val) is.pool long (λ b e. is.room p b (ground arith) e))
            λ r u made.
              let there : (p == null) ≡ false = ground (arith, made.holds.ne_null) in
              rw (made.got, there)
                (Returns.bind
                  (link-Linked u self.val_bytes _ _ (from key es) self.tail p _ key
                    (u-Span is user m val long made) made.holds (not_new is user m val long made)
                    (u_Ends is user m val long made)
                    (λ e.
                      ne_new is user m val long made self.tail (tail_out is user m val long made)
                        (sym e))
                    (omega (arith, low-lt is user m val long made)) (upto-from_again key es)
                    (from-from key es) fuel (omega (arith, lt, length-from key es))
                    (omega (arith, lt, made.fewer)))
                  λ (linked, s) v (yes_, done). rw yes_ (
                    returns (
                      upto key es
                          ++ (record { at = p; key = key; val = take self.val_bytes val })
                            ∷ from key es,
                      refl,
                      inserted-IsList is user m val long made done,
                      put-upto-from key
                          (record { at = p; key = key; val = take self.val_bytes val }) es refl,
                      refl,
                      made.config.capacity,
                      λ a out_. elsewhere is user m val long made done a (ground arith) (λ e.
                          mem_ne a (at_end self.head (upto key es)) out (ground arith)
                            (owned_before is user m val long made (at_end self.head (upto key es))
                              (at_end-mem self.head (upto key es)))
                            e),
                      done.blocks ∙ made.blocks,
                      done.errno ∙ made.errno,
                      omega (arith, done.fewer, made.fewer),
                    ))))
  ]

  pub insert-exists :
      {free : List Ptr} {old : List ℕ}
      → IsList w self es p free out
      → IsUserKey key
      → length es < fuel
      → find key (items es) ≡ some old
      → list_insert fuel self key (some val) w ≡ ok (failure, self) (record w { errno = eexist })
  insert-exists is user lt there = elim (place_key is user) [
    | inl f ↦ insert-Found fuel key val is user lt f
    | inr m ↦ ground (arith, m.find_is)
  ]

  -- On a list with no free fragment behind the next one, for a user's key that is not there, and
  -- with fuel above the number of entries, `list_insert` fails with ENOMEM, and nothing but the
  -- error number changes.
  pub insert-full :
      IsList w self es p [] out
      → IsUserKey key
      → length es < fuel
      → find key (items es) ≡ none
      → list_insert fuel self key (some val) w ≡ ok (failure, self) (record w { errno = enomem })
  unfolding list_insert
  insert-full is user lt none_ = elim (place_key is user) [
    | inl f ↦ ground (arith, f.find_is)
    | inr m ↦
        let at = Span-IsNode w.heap self.val_bytes _ _ (from key es) self.tail (rest-Span is key) in
        let ne : (key_end key_min (upto key es) == key) ≡ false = ground (arith, m.end_ne) in
        rw (
          search_from-ok w self.val_bytes self.head key_min es self.tail key fuel is.span
              (IsList-Ends is key user.below_max) lt,
          load_node w at,
          at.is_key,
          ne,
          alloc_node-empty {self = self} key (some val) is.pool,
        )
  ]
