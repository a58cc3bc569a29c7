-- ===== src/Queue/Create.antt =====
-- `queue_create` makes an empty queue with room for the given number of items.
use coop_tasks.Base.{
  ℕ, suc, ◌+◌, ◌-◌, ◌%◌, ◌<◌, ◌≤◌, ◌≡◌, ◌≢◌, refl, sym, ap, subst, ◌∙◌, false, Option, none, some,
  [], ◌∷◌, arith, ◌==◌, length, length-replicate, size_max, inc64, ◌∈◌, inl, inr, Bool-cases,
}
use coop_tasks.Heap.{Ptr, node, World}
use coop_tasks.Heap.Chain.{bytes_at, bytes_of}
use coop_tasks.Heap.Returns
use coop_tasks.Heap.Returns.{Returns, returns}
use coop_tasks.Mempool.{
  Status, success, IsPool, InSpace, create-Created, zeroed, fragments, fragment_at, first_fragment,
  internal_mempool_aligned_data_bytes-IsAligned, internal_mempool_aligned_data_bytes,
}
use coop_tasks.Queue.Defs.{Queue, queue_create, value_bytes}
use coop_tasks.Queue.Inv.{IsQueue}
use coop_tasks.Queue.Value.{ValueMade, alloc_value-ValueMade}

-- `node_bytes` of `queue_create`: the room of a value, and of the item in it.
abbrev pub node_bytes_of : ℕ → ℕ
node_bytes_of n = value_bytes + n

-- The size of a fragment of the queue's pool.
abbrev pub size_of : ℕ → ℕ
size_of n = internal_mempool_aligned_data_bytes (node_bytes_of n)

-- An empty queue: the first fragment is its dummy, and the others are free.
abbrev pub CreatePost : Ptr → ℕ → ℕ → Status × Option Queue → World → Type 0
CreatePost fresh n capacity (s, o) v =
    (self : Queue) × (s ≡ success)
    × (o ≡ some self)
    × IsQueue v self fresh [] (fragment_at fresh (size_of n) 1)
        (fragments capacity 2 fresh (size_of n)) (fresh ∷ []) []
    × (self.val_bytes ≡ n)
    × (self.pool.capacity ≡ capacity + 1)

module _ {fresh : Ptr} {n capacity : ℕ} (space : InSpace fresh (node_bytes_of n) (suc capacity))
    (some_bytes : n ≢ 0) (some_capacity : capacity ≢ 0) (small : capacity + 1 < size_max) where
  abbrev size : ℕ
  size = size_of n

  enough : n ≤ length ((zeroed size).bytes)
  enough = omega (
    arith,
    (internal_mempool_aligned_data_bytes-IsAligned (node_bytes_of n) space.small).room,
    length-replicate {A = ℕ} (size - 16) 0,
  )

  module _ {v : World} {self : Queue}
      (is : IsPool v self.pool fresh (fragments (suc capacity) 1 fresh size) [])
      (bytes : self.val_bytes ≡ n) (room : self.pool.capacity ≡ suc capacity)
      (zeros : (a : Ptr)
        → a ∈ fragment_at fresh size 0 ∷ fragments (suc capacity) 1 fresh size
        → bytes_at v.heap a ≡ some ((zeroed size).bytes)) where
    contents :
        {r : Ptr × Queue} {u : World}
        → ValueMade v self fresh
            (fragment_at fresh size 1)
            (fragments capacity 2 fresh size)
            []
            none
            r
            u
        → (a : Ptr) → bytes_at u.heap a ≡ bytes_at v.heap a
    contents {u} made a = elim (Bool-cases (a == fresh)) [
      | inl here ↦
          let at : a ≡ fresh = ground arith in
          subst (λ x. bytes_at u.heap x ≡ bytes_at v.heap x) (sym at) (made.bytes ∙ sym made.was)
      | inr other ↦ ap bytes_of (made.others a (ground arith))
    ]

    ValueMade-IsQueue :
        {r : Ptr × Queue} {u : World}
        → ValueMade v self fresh
            (fragment_at fresh size 1)
            (fragments capacity 2 fresh size)
            []
            none
            r
            u
        → IsQueue u
            (record r.1 { ends = record { head = node 0 r.0; tail = node 0 r.0 } })
            fresh
            []
            (fragment_at fresh size 1)
            (fragments capacity 2 fresh size)
            (fresh ∷ [])
            []
    ValueMade-IsQueue made = record {
      pool = made.pool;
      line = record {
        first = made.got;
        chain = (made.ne_null, made.link);
        member = ground (arith, made.got);
        lag = inl made.got;
      };
      used = λ a. refl;
      used_count = refl;
      stored = tt;
      room = λ a b m e.
          let owned : a ∈ fragment_at fresh size 0 ∷ fragments (suc capacity) 1 fresh size =
            ground (arith, first_fragment space) in
          let same : some b ≡ some ((zeroed size).bytes) =
            sym e ∙ contents made a ∙ zeros a owned in
          let eq : b ≡ (zeroed size).bytes = cc in
          omega (arith, ap length eq, enough, made.size, bytes);
    }

  -- With a block that `calloc` finds for the fragments (not NULL, and inside the address space),
  -- item size and capacity not zero and the capacity below its bound, `queue_create` succeeds and
  -- makes an empty queue with that item size, in a pool with one fragment more than the capacity.
  pub create-IsQueue :
      (old : Queue) (w : World)
      → Returns (CreatePost fresh n capacity) (queue_create fresh (some old) n capacity w)
  unfolding queue_create
  create-IsQueue old w =
      let b : (n == 0) ≡ false = ground arith in
      let c : (capacity == 0) ≡ false = ground arith in
      let k : inc64 capacity ≡ suc capacity = omega arith in
      let m : (value_bytes + n) % size_max ≡ value_bytes + n = omega (arith, space.small) in
      rw (b, c, k, m)
        (Returns.bind (create-Created space (omega arith) (omega arith) old.pool w)
          λ (s, o) v
              (
                pool, done, made, is, at, data_bytes, room, blocks, others, zeros, errno,
                other_blocks, fewer,
              ).
            rw (done, made)
              (Returns.bind
                (alloc_value-ValueMade {self = record old { pool = pool; val_bytes = n }} none is tt
                  (λ b e.
                    let first : fresh ∈ fragments (suc (suc capacity)) 0 fresh size =
                      ground (arith, first_fragment space) in
                    let same : some b ≡ some ((zeroed size).bytes) = sym e ∙ zeros fresh first in
                    let eq : b ≡ (zeroed size).bytes = cc in omega (arith, ap length eq, enough)))
                λ r u value. returns (
                  _,
                  refl,
                  refl,
                  ValueMade-IsQueue is refl room zeros value,
                  value.size,
                  omega (arith, value.config.capacity, room),
                )))
