-- ===== src/Queue/Value.antt =====
-- `queue_alloc_value` takes a fragment of the pool and writes a value into it.
use coop_tasks.Base.{
  ℕ, ◌≤◌, ◌≡◌, ◌≢◌, refl, sym, ap, ◌∙◌, false, none, some, List, [], ◌∷◌, ◌++◌, arith, ◌==◌, length,
  take, drop, inl, inr, Bool-cases,
}
use coop_tasks.Heap.{
  Ptr, null, node, Heap, Cell, World, Cmd, ok, pure, ◌>>◌, write, set_next, enomem,
}
use coop_tasks.Heap.Access.{
  Holds, load-ok, store-ok, set_next-ok, memcpy-ok, link_at-write, bytes_at-write, write_other,
  bytes_at-Holds,
}
use coop_tasks.Heap.Chain.{link_at, bytes_at, link_of}
use coop_tasks.Heap.Returns
use coop_tasks.Heap.Returns.{Returns, returns}
use coop_tasks.Mempool.{
  Pool, IsPool, IsPool-frame, Picked, SameConfig, alloc-Allocated, alloc-empty,
}
use coop_tasks.Queue.Defs.{Queue, Bytes, copy_in, queue_alloc_value}

-- The bytes of a value, with an item copied over their front.
abbrev pub filled : ℕ → Bytes → List ℕ → List ℕ
filled n none old = old
filled n (some val) old = take n val ++ drop n old

-- The item is long enough to be copied.
abbrev pub LongEnough : ℕ → Bytes → Type 0
LongEnough n none = Unit {0}
LongEnough n (some val) = n ≤ length val

-- The heap with the link of `p` emptied and its bytes filled.
abbrev pub emptied : Heap → Ptr → Cell → Heap
emptied h p c = write h p (some (record c { next = node 0 null }))

abbrev pub valued : Heap → Ptr → Cell → ℕ → Bytes → Heap
valued h p c n none = emptied h p c
valued h p c n (some val) =
    write (emptied h p c) p
      (some (record c { next = node 0 null; bytes = filled n (some val) c.bytes }))

write_value :
    {B : Type 0} (n : ℕ) (val : Bytes) (p : Ptr) (c : Cell) (u : World) (k : Cmd B)
    → Holds u.heap p c
    → n ≤ length c.bytes
    → LongEnough n val
    → (set_next p (node 0 null) >> (copy_in n p val >> k)) u
      ≡ k (record u { heap = valued u.heap p c n val })
unfolding copy_in
write_value n none p c u k at room long = rw (set_next-ok u at (node 0 null))
write_value n (some val) p c u k at room long =
    let u' = record u { heap = emptied u.heap p c } in
    let at' : Holds u'.heap p (record c { next = node 0 null }) = record {
      ne_null = at.ne_null;
      cell = ground arith;
    } in
    rw (
      set_next-ok u at (node 0 null),
      load-ok u' at',
      memcpy-ok n c.bytes val u' room long,
      store-ok u' at' _,
    )

valued_link :
    (h : Heap) (p : Ptr) (c : Cell) (n : ℕ) (val : Bytes)
    → link_at (valued h p c n val) p ≡ some null
valued_link h p c n none = rw link_at-write (ground arith)
valued_link h p c n (some val) = rw link_at-write (ground arith)

valued_bytes :
    (h : Heap) (p : Ptr) (c : Cell) (n : ℕ) (val : Bytes)
    → bytes_at (valued h p c n val) p ≡ some (filled n val c.bytes)
valued_bytes h p c n none = rw bytes_at-write (ground arith)
valued_bytes h p c n (some val) = rw bytes_at-write (ground arith)

valued_other :
    (h : Heap) (p : Ptr) (c : Cell) (n : ℕ) (val : Bytes) (a : Ptr)
    → a ≢ p
    → valued h p c n val a ≡ h a
valued_other h p c n none a ne = write_other h p _ a ne
valued_other h p c n (some val) a ne = write_other (emptied h p c) p _ a ne ∙ write_other h p _ a ne

valued_cell :
    (h : Heap) (p : Ptr) (c : Cell) (n : ℕ) (val : Bytes)
    → (d : Cell) × (valued h p c n val p ≡ some d)
valued_cell h p c n none = (record c { next = node 0 null }, ground arith)
valued_cell h p c n (some val) =
    (record c { next = node 0 null; bytes = filled n (some val) c.bytes }, ground arith)

-- `p` came out of the pool, and holds the item behind an empty link.
pub record ValueMade (w : World) (self : Queue) (p q : Ptr) (free out : List Ptr) (val : Bytes)
    (r : Ptr × Queue) (v : World) : Type 0 where
  pub old : List ℕ
  pub got : r.0 ≡ p
  pub ne_null : p ≢ null
  pub pool : IsPool v r.1.pool q free (p ∷ out)
  pub size : r.1.val_bytes ≡ self.val_bytes
  pub ends : r.1.ends ≡ self.ends
  pub config : SameConfig self.pool r.1.pool
  pub link : link_at v.heap p ≡ some null
  pub was : bytes_at w.heap p ≡ some old
  pub bytes : bytes_at v.heap p ≡ some (filled self.val_bytes val old)
  pub others : (a : Ptr) → a ≢ p → v.heap a ≡ w.heap a
  pub blocks : v.blocks ≡ w.blocks
  pub errno : v.errno ≡ w.errno

valued-IsPool :
    {pool : Pool} {p q : Ptr} {free out : List Ptr} (n : ℕ) (val : Bytes) (u : World) (c : Cell)
    → Holds u.heap p c
    → IsPool u pool q free (p ∷ out)
    → IsPool (record u { heap = valued u.heap p c n val }) pool q free (p ∷ out)
valued-IsPool {p} n val u c at pool =
    IsPool-frame u _ pool
      (λ a m. ap link_of (valued_other u.heap p c n val a (ground (arith, pool.apart p))))
      (λ a m. elim (Bool-cases (a == p)) [
        | inl here ↦
            let (d, e) = valued_cell u.heap p c n val in
            let same : a ≡ p = ground arith in
            (
              d,
              record {
                ne_null = ground (arith, at.ne_null);
                cell = ap (valued u.heap p c n val) same ∙ e;
              },
            )
        | inr other ↦
            let (d, h) = pool.cells a m in
            (
              d,
              record {
                ne_null = h.ne_null;
                cell = valued_other u.heap p c n val a (ground arith) ∙ h.cell;
              },
            )
      ])

module _ {w : World} {self : Queue} {p q : Ptr} {free out : List Ptr} (val : Bytes)
    (is : IsPool w self.pool p (q ∷ free) out) where
  Picked-ValueMade :
      (pool : Pool) (u : World)
      → Picked w self.pool p q free out (p, pool) u
      → (c : Cell) → Holds u.heap p c
      → ValueMade w self p q free out val
          (p, record self { pool = pool })
          (record u { heap = valued u.heap p c self.val_bytes val })
  Picked-ValueMade pool u got c at = record {
    old = c.bytes;
    got = refl;
    ne_null = at.ne_null;
    pool = valued-IsPool self.val_bytes val u c at got.is;
    size = refl;
    ends = refl;
    config = got.config;
    link = valued_link u.heap p c self.val_bytes val;
    was = sym (ap (λ h. bytes_at h p) got.answers.heap) ∙ bytes_at-Holds u.heap p c at;
    bytes = valued_bytes u.heap p c self.val_bytes val;
    others =
        λ a ne. valued_other u.heap p c self.val_bytes val a ne ∙ ap (λ h. h a) got.answers.heap;
    blocks = got.answers.blocks;
    errno = got.answers.errno;
  }

  pub alloc_value-ValueMade :
      LongEnough self.val_bytes val
      → ((b : List ℕ) → bytes_at w.heap p ≡ some b → self.val_bytes ≤ length b)
      → Returns (ValueMade w self p q free out val) (queue_alloc_value self val w)
  unfolding queue_alloc_value
  alloc_value-ValueMade long room =
      Returns.bind (alloc-Allocated is) λ (r, o) u (pool, made, fresh, got).
        let (c, at) = got.is.cells p (ground arith) in
        let was = sym (ap (λ h. bytes_at h p) got.answers.heap) ∙ bytes_at-Holds u.heap p c at in
        let k : Cmd (Ptr × Queue) = pure (p, record self { pool = pool }) in
        let ne : (p == null) ≡ false = ground (arith, at.ne_null) in
        rw (made, got.got, ne, write_value self.val_bytes val p c u k at (room c.bytes was) long)
          (returns (
            Picked-ValueMade pool u
              (record { got = refl; is = got.is; config = got.config; answers = got.answers }) c
              at))

-- An empty pool: no value is made, and nothing but the error number changes.
pub alloc_value-empty :
    {w : World} {self : Queue} {p : Ptr} {out : List Ptr} (val : Bytes)
    → IsPool w self.pool p [] out
    → queue_alloc_value self val w ≡ ok (null, self) (record w { errno = enomem })
unfolding queue_alloc_value
alloc_value-empty val is = rw (alloc-empty is)
