-- ===== src/LockFree/Alloc.antt =====
-- `list_alloc_node` takes a fragment of the pool and makes it a node.
use coop_tasks.Base.{
  ℕ, ◌+◌, ◌≤◌, ◌≡◌, ◌≢◌, refl, sym, ap, subst, ◌∙◌, false, some, List, [], ◌∷◌, arith, ◌==◌, length,
  inl, inr, Bool-cases,
}
use coop_tasks.Heap.{Ptr, null, node, Heap, Cell, World, ok, write, enomem}
use coop_tasks.Heap.Access.{Holds, load-ok, store-ok, write_other, bytes_at-Holds}
use coop_tasks.Heap.Chain.{bytes_at, link_of}
use coop_tasks.Heap.Returns
use coop_tasks.Heap.Returns.{Returns, returns}
use coop_tasks.Mempool.{
  Pool, IsPool, IsPool-frame, Picked, SameConfig, alloc-Allocated, alloc-empty,
}
use coop_tasks.Queue.{Bytes, LongEnough}
use coop_tasks.LockFree.Defs.{LockFreeList, list_alloc_node}
use coop_tasks.LockFree.Values.{with_val, copied, copied_here, copied_other, copy_val-ok}

-- A cell as a node with no successor.
abbrev pub blank : ℕ → Cell → Cell
blank key c = record c { next = node 0 null; backlink = null; key = key }

abbrev pub made_heap : Heap → Ptr → Cell → ℕ → ℕ → Bytes → Heap
made_heap h p c key n val = copied (write h p (some (blank key c))) p (blank key c) n val

module _ (h : Heap) (p : Ptr) (c : Cell) (key n : ℕ) (val : Bytes) where
  made_here : p ≢ null → Holds (made_heap h p c key n val) p (with_val n val (blank key c))
  made_here ne =
      copied_here (write h p (some (blank key c))) p (blank key c) n val
        (record { ne_null = ne; cell = ground arith })

  made_other : (a : Ptr) → a ≢ p → made_heap h p c key n val a ≡ h a
  made_other a ne =
      copied_other (write h p (some (blank key c))) p (blank key c) n val a ne
      ∙ write_other h p _ a ne

-- `p` came out of the pool, and is a node with the key and the value.
pub record NodeMade (w : World) (self : LockFreeList) (p q : Ptr) (free out : List Ptr) (key : ℕ)
    (val : Bytes) (r : Ptr × LockFreeList) (v : World) : Type 0 where
  pub old : Cell
  pub new_pool : Pool
  pub got : r ≡ (p, record self { pool = new_pool })
  pub was : bytes_at w.heap p ≡ some old.bytes
  pub holds : Holds v.heap p (with_val self.val_bytes val (blank key old))
  pub pool : IsPool v new_pool q free (p ∷ out)
  pub config : SameConfig self.pool new_pool
  pub others : (a : Ptr) → a ≢ p → v.heap a ≡ w.heap a
  pub blocks : v.blocks ≡ w.blocks
  pub errno : v.errno ≡ w.errno
  pub fewer : length v.spurious ≤ length w.spurious

made-IsPool :
    {pool : Pool} {p q : Ptr} {free out : List Ptr} (key n : ℕ) (val : Bytes) (u : World) (c : Cell)
    → Holds u.heap p c
    → IsPool u pool q free (p ∷ out)
    → IsPool (record u { heap = made_heap u.heap p c key n val }) pool q free (p ∷ out)
made-IsPool {p} key n val u c at pool =
    IsPool-frame u _ pool
      (λ a m. ap link_of (made_other u.heap p c key n val a (ground (arith, pool.apart p))))
      (λ a m. elim (Bool-cases (a == p)) [
        | inl here ↦ (
          with_val n val (blank key c),
          subst (λ x. Holds (made_heap u.heap p c key n val) x (with_val n val (blank key c)))
              (ground arith) (made_here u.heap p c key n val at.ne_null),
        )
        | inr other ↦
            let (d, h) = pool.cells a m in
            (
              d,
              record {
                ne_null = h.ne_null;
                cell = made_other u.heap p c key n val a (ground arith) ∙ h.cell;
              },
            )
      ])

module _ {w : World} {self : LockFreeList} {p q : Ptr} {free out : List Ptr} (key : ℕ) (val : Bytes)
    (is : IsPool w self.pool p (q ∷ free) out) where
  Picked-NodeMade :
      (pool : Pool) (u : World)
      → Picked w self.pool p q free out (p, pool) u
      → (c : Cell) → Holds u.heap p c
      → NodeMade w self p q free out key val
          (p, record self { pool = pool })
          (record u { heap = made_heap u.heap p c key self.val_bytes val })
  Picked-NodeMade pool u got c at = record {
    old = c;
    new_pool = pool;
    got = refl;
    was = sym (ap (λ h. bytes_at h p) got.answers.heap) ∙ bytes_at-Holds u.heap p c at;
    holds = made_here u.heap p c key self.val_bytes val at.ne_null;
    pool = made-IsPool key self.val_bytes val u c at got.is;
    config = got.config;
    others =
        λ a ne. made_other u.heap p c key self.val_bytes val a ne ∙ ap (λ h. h a) got.answers.heap;
    blocks = got.answers.blocks;
    errno = got.answers.errno;
    fewer = got.answers.fewer;
  }

  pub alloc_node-NodeMade :
      LongEnough self.val_bytes val
      → ((b : List ℕ) → bytes_at w.heap p ≡ some b → self.val_bytes + 16 ≤ length b)
      → Returns (NodeMade w self p q free out key val) (list_alloc_node self key val w)
  unfolding list_alloc_node
  alloc_node-NodeMade long room =
      Returns.bind (alloc-Allocated is) λ (r, o) u (pool, made, fresh, got).
        let (c, at) = got.is.cells p (ground arith) in
        let was = sym (ap (λ h. bytes_at h p) got.answers.heap) ∙ bytes_at-Holds u.heap p c at in
        let ne : (p == null) ≡ false = ground (arith, at.ne_null) in
        let u' = record u { heap = write u.heap p (some (blank key c)) } in
        let at' : Holds u'.heap p (blank key c) = record {
          ne_null = at.ne_null;
          cell = ground arith;
        } in
        rw
          (
            made,
            got.got,
            ne,
            load-ok u at,
            store-ok u at (blank key c),
            copy_val-ok self.val_bytes val u' at' (room c.bytes was) long,
          )
          (returns (
            Picked-NodeMade pool u
              (record { got = refl; is = got.is; config = got.config; answers = got.answers }) c
              at))

-- An empty pool: no node is made, and nothing but the error number changes.
pub alloc_node-empty :
    {w : World} {self : LockFreeList} {p : Ptr} {out : List Ptr} (key : ℕ) (val : Bytes)
    → IsPool w self.pool p [] out
    → list_alloc_node self key val w ≡ ok (null, self) (record w { errno = enomem })
unfolding list_alloc_node
alloc_node-empty key val is = rw (alloc-empty is)
