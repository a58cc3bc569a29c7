-- ===== src/Mempool/Create.antt =====
-- `mempool_create` and `mempool_clear` make a pool whose fragments are all free, in order.
use coop_tasks.Base.{
  ℕ, zero, suc, ◌+◌, ◌-◌, ◌*◌, ◌<◌, ◌≤◌, ◌≡◌, ◌≢◌, refl, sym, ap, subst, ◌∙◌, false, Option, some,
  List, [], ◌∷◌, ◌++◌, arith, ◌==◌, size_max, inc64, length, ◌∈◌, ◌∉◌, erase, inl, has-append,
  mem_ne,
}
use mathlib.Core.List.{append_assoc, append-nil}
use coop_tasks.Heap.{Ptr, null, node, Cell, Block, World, write}
use coop_tasks.Heap.Access.{Holds, set_next-ok, write_other, bytes_at-write, bytes_at-Holds}
use coop_tasks.Heap.Chain.{bytes_at, bytes_of, last, last-mem}
use coop_tasks.Heap.Returns
use coop_tasks.Heap.Returns.{Returns, returns}
use coop_tasks.Mempool.Defs.{
  Pool, Status, success, memory_pool_maker, fragment_at, put_from, internal_mempool_setup,
  internal_mempool_aligned_data_bytes, calloc, fill, zeroed, mempool_create, mempool_clear,
}
use coop_tasks.Mempool.Fragments.{
  fragments, internal_mempool_aligned_data_bytes-IsAligned, length-fragments, fragments_above,
  Distinct-fragments, fill_inside, fill_outside,
}
use coop_tasks.Mempool.Inv.{IsPool, SameConfig, put_lem}

-- After the loop all the given fragments are free, behind those that were.
pub record Stocked (w : World) (self : Pool) (p : Ptr) (qs more : List Ptr) (self' : Pool)
    (v : World) : Type 0 where
  pub is : IsPool v self' p (qs ++ more) []
  pub config : SameConfig self self'
  pub others : (a : Ptr) → a ∉ p ∷ qs → a ∉ more → v.heap a ≡ w.heap a
  pub bytes : (a : Ptr) → bytes_at v.heap a ≡ bytes_at w.heap a
  pub blocks : v.blocks ≡ w.blocks
  pub errno : v.errno ≡ w.errno
  pub fewer : length v.spurious ≤ length w.spurious

erase_first : (f : Ptr) (rest : List Ptr) → erase f (f ∷ rest) ≡ rest
erase_first f rest = ground arith

pub put_from-Stocked :
    (k i : ℕ) (size : ℕ) (base : Ptr) {w : World} {self : Pool} {p : Ptr} (qs : List Ptr)
    → IsPool w self p qs (fragments k i base size)
    → Returns (Stocked w self p qs (fragments k i base size)) (put_from k i size base self w)
unfolding put_from
put_from-Stocked zero i size base {w} {self} {p} qs is = returns (record {
  is = subst (λ l. IsPool w self p l []) (sym (append-nil qs)) is;
  config = record { pool = refl; data_bytes = refl; capacity = refl };
  others = λ a o o'. refl;
  bytes = λ a. refl;
  blocks = refl;
  errno = refl;
  fewer = omega arith;
})
put_from-Stocked (suc k) i size base {w} {self} {p} qs is =
    let f = fragment_at base size i in
    let rest = fragments k (i + 1) base size in
    Returns.bind (put_lem f is (ground arith)) λ self' v put.
      Returns.mono
        (put_from-Stocked k (i + 1) size base (qs ++ f ∷ [])
          (subst (λ l. IsPool v self' p (qs ++ f ∷ []) l) (erase_first f rest) put.is))
        λ self'' u done. record {
          is = subst (λ l. IsPool u self'' p l []) (append_assoc qs (f ∷ []) rest) done.is;
          config = record {
            pool = done.config.pool ∙ put.config.pool;
            data_bytes = done.config.data_bytes ∙ put.config.data_bytes;
            capacity = done.config.capacity ∙ put.config.capacity;
          };
          others = λ a o o'.
              done.others a (ground (arith, has-append a (p ∷ qs) (f ∷ []))) (ground arith)
              ∙ put.others a (ground arith) (mem_ne a (last p qs) (p ∷ qs) o (last-mem p qs));
          bytes = λ a. done.bytes a ∙ put.bytes a;
          blocks = done.blocks ∙ put.blocks;
          errno = done.errno ∙ put.errno;
          fewer = omega (arith, done.fewer, put.fewer);
        }

-- A pool of `capacity` free fragments in the block at `pool`.
pub record Fresh (w : World) (pool : Ptr) (data_bytes capacity : ℕ) (self : Pool) (v : World)
    : Type 0 where
  pub is :
      IsPool v self pool
        (fragments capacity 1 pool (internal_mempool_aligned_data_bytes data_bytes))
        []
  pub at : self.pool ≡ pool
  pub bytes : self.data_bytes ≡ data_bytes
  pub size : self.capacity ≡ capacity
  pub others :
      (a : Ptr)
      → a ∉ fragments (suc capacity) 0 pool (internal_mempool_aligned_data_bytes data_bytes)
      → v.heap a ≡ w.heap a
  pub contents : (a : Ptr) → bytes_at v.heap a ≡ bytes_at w.heap a
  pub blocks : v.blocks ≡ w.blocks
  pub errno : v.errno ≡ w.errno
  pub fewer : length v.spurious ≤ length w.spurious

-- What `calloc` gives: a block in the address space, at an address that is not NULL.
pub record InSpace (pool : Ptr) (data_bytes capacity : ℕ) : Type 0 where
  pub ne_null : pool ≢ null
  pub small : data_bytes ≤ size_max - 16
  pub fits : pool + internal_mempool_aligned_data_bytes data_bytes * suc capacity ≤ size_max

module _ {pool : Ptr} {data_bytes capacity : ℕ} (space : InSpace pool data_bytes capacity) where
  abbrev pub size : ℕ
  size = internal_mempool_aligned_data_bytes data_bytes

  pos : 0 < size
  pos = omega (arith, (internal_mempool_aligned_data_bytes-IsAligned data_bytes space.small).link)

  capacity_small : capacity + 1 < size_max
  capacity_small = grind (
    arith,
    (internal_mempool_aligned_data_bytes-IsAligned data_bytes space.small).link,
    space.fits,
  )

  pub first_fragment : fragment_at pool size 0 ≡ pool
  first_fragment = omega (arith, space.fits, pos)

  above_first : (a : Ptr) → a ∈ fragments capacity 1 pool size → pool < a
  above_first a m =
      omega (arith, fragments_above pool size pos capacity 1 a (omega (arith, space.fits)) m, pos)

  initial : World → Cell → World
  initial w c = record w { heap = write w.heap pool (some (record c { next = node 0 null })) }

  start : Pool
  start = record (memory_pool_maker pool data_bytes capacity) {
    ends = record { head = node 0 pool; tail = node 0 pool };
  }

  start-IsPool :
      (w : World) (c : Cell)
      → Holds w.heap pool c
      → ((a : Ptr) → a ∈ fragments capacity 1 pool size → (d : Cell) × Holds w.heap a d)
      → IsPool (initial w c) start pool [] (fragments capacity 1 pool size)
  unfolding initial start
  start-IsPool w c at cells = record {
    line = record {
      first = refl;
      chain = (space.ne_null, ground arith);
      member = ground arith;
      lag = inl refl;
    };
    free = refl;
    count = omega (arith, length-fragments capacity 1 pool size);
    bound = omega (arith, capacity_small);
    distinct = Distinct-fragments pool size pos capacity 1 (omega (arith, space.fits));
    apart = λ a m. ground (arith, above_first a m);
    cells = λ a m.
        let (d, holds) = cells a m in
        (
          d,
          record {
            ne_null = holds.ne_null;
            cell = write_other w.heap pool _ a (omega (arith, above_first a m)) ∙ holds.cell;
          },
        );
  }

  pub setup-Fresh :
      (w : World)
      → ((a : Ptr) → a ∈ fragments (suc capacity) 0 pool size → (c : Cell) × Holds w.heap a c)
      → Returns
          (Fresh w pool data_bytes capacity)
          (internal_mempool_setup pool data_bytes capacity w)
  unfolding internal_mempool_setup initial start
  setup-Fresh w cells =
      let rounds : inc64 capacity - 1 ≡ capacity = omega (arith, capacity_small) in
      let (c, at) = cells pool (ground (arith, first_fragment)) in
      let is = start-IsPool w c at (λ a m. cells a (ground arith)) in
      rw (set_next-ok w at (node 0 null), rounds)
        (Returns.mono (put_from-Stocked capacity 1 size pool [] is) λ self v done. record {
          is = done.is;
          at = done.config.pool;
          bytes = done.config.data_bytes;
          size = done.config.capacity;
          others = λ a o.
              done.others a (ground (arith, first_fragment)) (ground arith)
              ∙ write_other w.heap pool _ a (ground (arith, first_fragment));
          contents = λ a.
              done.bytes a ∙ rw bytes_at-write (ground (arith, bytes_at-Holds w.heap pool c at));
          blocks = done.blocks;
          errno = done.errno;
          fewer = done.fewer;
        })

-- The block of a pool, as `calloc` recorded it.
abbrev pub block_of : (data_bytes capacity : ℕ) → Block
block_of data_bytes capacity = record {
  elements = suc capacity;
  size = internal_mempool_aligned_data_bytes data_bytes;
}

-- `mempool_create` has made a pool, and has touched nothing outside its block.
abbrev pub Created : World → Ptr → (data_bytes capacity : ℕ) → Status × Option Pool → World → Type 0
Created w pool data_bytes capacity (s, o) v =
    (self : Pool) × (s ≡ success)
    × (o ≡ some self)
    × IsPool v self pool
        (fragments capacity 1 pool (internal_mempool_aligned_data_bytes data_bytes)) []
    × (self.pool ≡ pool)
    × (self.data_bytes ≡ data_bytes)
    × (self.capacity ≡ capacity)
    × (v.blocks pool ≡ some (block_of data_bytes capacity))
    × ((a : Ptr)
        → a ∉ fragments (suc capacity) 0 pool (internal_mempool_aligned_data_bytes data_bytes)
        → v.heap a ≡ w.heap a)
    × ((a : Ptr)
        → a ∈ fragments (suc capacity) 0 pool (internal_mempool_aligned_data_bytes data_bytes)
        → bytes_at v.heap a
          ≡ some ((zeroed (internal_mempool_aligned_data_bytes data_bytes)).bytes))
    × (v.errno ≡ w.errno)
    × ((a : Ptr) → a ≢ pool → v.blocks a ≡ w.blocks a)
    × (length v.spurious ≤ length w.spurious)

module _ {fresh : Ptr} {data_bytes capacity : ℕ} (space : InSpace fresh data_bytes capacity)
    (some_bytes : data_bytes ≢ 0) (some_capacity : capacity ≢ 0) (old : Pool) (w : World) where
  zeroed_cells :
      (a : Ptr)
      → a ∈ fragments (suc capacity) 0 fresh (size space)
      → (c : Cell) × Holds
          (fill (suc capacity) 0 fresh (size space) (some (zeroed (size space))) w.heap)
          a
          c
  zeroed_cells a m =
      let above =
        fragments_above fresh (size space) (pos space) (suc capacity) 0 a
          (omega (arith, space.fits)) m in
      (
        zeroed (size space),
        record {
          ne_null = omega (arith, space.ne_null);
          cell = fill_inside (suc capacity) 0 fresh (size space) _ w.heap a m;
        },
      )

  -- With a block that `calloc` finds (not NULL, and inside the address space), and size and
  -- capacity not zero, `mempool_create` succeeds: all fragments but the dummy are free, in the
  -- order of their addresses and with their bytes zero, none is in use, the block is allocated, and
  -- cells outside it, the other blocks and the error number are as they were.
  pub create-Created :
      Returns
        (Created w fresh data_bytes capacity)
        (mempool_create fresh (some old) data_bytes capacity w)
  unfolding mempool_create calloc
  create-Created =
      let n : inc64 capacity ≡ suc capacity = omega (arith, capacity_small space) in
      let b : (data_bytes == 0) ≡ false = ground arith in
      let c : (capacity == 0) ≡ false = ground arith in
      let got : (fresh == null) ≡ false = ground (arith, space.ne_null) in
      rw (b, c, got, n, got)
        (Returns.bind (setup-Fresh space _ zeroed_cells) λ self v fr. returns (
          self,
          refl,
          refl,
          fr.is,
          fr.at,
          fr.bytes,
          fr.size,
          ap (λ f. f fresh) fr.blocks ∙ ground arith,
          λ a o. fr.others a o ∙ fill_outside (suc capacity) 0 fresh (size space) _ w.heap a o,
          λ a m.
              fr.contents a
              ∙ ap bytes_of (fill_inside (suc capacity) 0 fresh (size space) _ w.heap a m),
          fr.errno,
          λ a ne. ap (λ f. f a) fr.blocks ∙ ground arith,
          fr.fewer,
        ))

-- What `mempool_clear` makes of a pool: all its fragments are free again, in order.
abbrev pub Cleared : World → Pool → Status × Option Pool → World → Type 0
Cleared w self (s, o) v =
    (self' : Pool) × (s ≡ success)
    × (o ≡ some self')
    × Fresh w self.pool self.data_bytes self.capacity self' v

-- On a pool whose fragments all lie in memory, inside the address space, `mempool_clear` succeeds,
-- whatever is in use: all fragments but the dummy are free again in the order of their addresses,
-- with the bytes they had, and cells outside the pool are as they were.
pub clear-Cleared :
    (self : Pool) (w : World)
    → InSpace self.pool self.data_bytes self.capacity
    → ((a : Ptr)
        → a
          ∈ fragments
              (suc self.capacity)
              0
              self.pool
              (internal_mempool_aligned_data_bytes self.data_bytes)
        → (c : Cell) × Holds w.heap a c)
    → Returns (Cleared w self) (mempool_clear (some self) w)
unfolding mempool_clear
clear-Cleared self w space cells =
    Returns.bind (setup-Fresh space w cells) λ self' v fr. returns (self', refl, refl, fr)
