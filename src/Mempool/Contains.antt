-- ===== src/Mempool/Contains.antt =====
-- What `mempool_contains` and `mempool_destroy` answer.
use coop_tasks.Base.{
  ℕ, ◌+◌, ◌*◌, ◌%◌, ◌≤◌, ◌≡◌, ◌≢◌, ◌↔◌, refl, true, false, Option, none, some, arith, ◌==◌,
  size_max, ◌∈◌, ◌∉◌,
}
use coop_tasks.Heap.{Ptr, null, Block, World, ok, fault, load}
use coop_tasks.Heap.Returns.{Returns, returns}
use coop_tasks.Mempool.Defs.{
  Pool, Status, success, fragment_at, internal_mempool_aligned_data_bytes, mempool_contains,
  mempool_destroy, free,
}
use coop_tasks.Mempool.Fragments.{
  fragments, internal_mempool_aligned_data_bytes-IsAligned, fill_inside, fill_outside,
}
use coop_tasks.Mempool.Create.{InSpace}

module _ (self : Pool) (w : World) (space : InSpace self.pool self.data_bytes self.capacity) where
  abbrev size : ℕ
  size = internal_mempool_aligned_data_bytes self.data_bytes

  -- The source's bound, with no wrap round: one byte past the start of the last fragment.
  pool_end :
      (self.pool + (size * self.capacity + 1) % size_max) % size_max
      ≡ self.pool + size * self.capacity + 1
  pool_end = omega (
    arith,
    (internal_mempool_aligned_data_bytes-IsAligned self.data_bytes space.small).link,
    space.fits,
  )

  -- On a pool that fits in the address space `mempool_contains` is true exactly of the addresses
  -- from the first byte of the pool to the first byte of its last fragment, both included.
  pub contains_iff :
      (ptr : Ptr)
      → (mempool_contains (some self) ptr w ≡ ok true w)
        ↔ ((self.pool ≤ ptr) × (ptr ≤ self.pool + size * self.capacity))
  unfolding mempool_contains
  contains_iff ptr = rw pool_end ((λ h. ground arith), (λ h. ground arith))

  pub contains-fragment :
      (i : ℕ)
      → i ≤ self.capacity
      → mempool_contains (some self) (fragment_at self.pool size i) w ≡ ok true w
  contains-fragment i h =
      let inside : size * i ≤ size * self.capacity = grind arith in
      let at : fragment_at self.pool size i ≡ self.pool + size * i = omega (
        arith,
        (internal_mempool_aligned_data_bytes-IsAligned self.data_bytes space.small).link,
        space.fits,
      ) in
      (contains_iff (fragment_at self.pool size i)).1 (omega (arith, at), omega (arith, at))

-- After `mempool_destroy` no fragment of the block can be read, nothing else has changed, and a
-- second call does nothing.
abbrev pub Destroyed : World → Pool → Block → Status × Option Pool → World → Type 0
Destroyed w self b (s, o) v =
    (self' : Pool) × (s ≡ success)
    × (o ≡ some self')
    × ((a : Ptr) → a ∈ fragments b.elements 0 self.pool b.size → load a v ≡ fault)
    × ((a : Ptr) → a ∉ fragments b.elements 0 self.pool b.size → v.heap a ≡ w.heap a)
    × (mempool_destroy (some self') v ≡ ok (success, some self') v)

-- On a pool whose address is an allocated block, `mempool_destroy` gives that block back, leaves no
-- cell of it and every other cell as it was; the pool's pointer is then NULL, so that a second call
-- succeeds and does nothing.
pub destroy-Destroyed :
    (self : Pool) (b : Block) (w : World)
    → self.pool ≢ null
    → w.blocks self.pool ≡ some b
    → Returns (Destroyed w self b) (mempool_destroy (some self) w)
unfolding mempool_destroy free load
destroy-Destroyed self b w ne e =
    let got : (self.pool == null) ≡ false = ground arith in
    rw (got, e)
      (returns (
        _,
        refl,
        refl,
        λ a m. rw (fill_inside b.elements 0 self.pool b.size none w.heap a m) (ground arith),
        λ a o. fill_outside b.elements 0 self.pool b.size none w.heap a o,
        refl,
      ))
