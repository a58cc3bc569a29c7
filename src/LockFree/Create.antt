-- ===== src/LockFree/Create.antt =====
-- `list_create` makes an empty list with room for the given number of items.
use coop_tasks.Base.{
  ℕ, suc, ◌+◌, ◌-◌, ◌%◌, ◌<◌, ◌≤◌, ◌≡◌, ◌≢◌, ◌∈◌, refl, sym, ap, subst, ◌∙◌, false, Option, none,
  some, List, [], ◌∷◌, arith, ◌==◌, length, length-replicate, size_max, inl, inr, Bool-cases,
}
use coop_tasks.Heap.{Ptr, node, Cell, World, write}
use coop_tasks.Heap.Access.{Holds, set_next-ok, write_here, write_other}
use coop_tasks.Heap.Chain.{bytes_at, bytes_of}
use coop_tasks.Heap.Returns
use coop_tasks.Heap.Returns.{Returns, returns}
use coop_tasks.Mempool.{
  Status, success, InSpace, create-Created, zeroed, fragments, fragment_at, first_fragment,
  internal_mempool_aligned_data_bytes-IsAligned, internal_mempool_aligned_data_bytes,
}
use coop_tasks.LockFree.Defs.{LockFreeList}
use coop_tasks.LockFree.Ops.{key_min, key_max, list_node_bytes, list_create}
use coop_tasks.LockFree.Inv.{IsList}
use coop_tasks.LockFree.Change.{IsPool-used}
use coop_tasks.LockFree.Alloc.{blank, NodeMade, alloc_node-NodeMade}

-- The size of a fragment of the list's pool.
abbrev pub node_size : ℕ → ℕ
node_size n = internal_mempool_aligned_data_bytes (list_node_bytes + n)

-- An empty list: the first two fragments are its ends, and all behind the third are free.
abbrev pub ListCreated : World → Ptr → ℕ → ℕ → Status × Option LockFreeList → World → Type 0
ListCreated w fresh n capacity (s, o) v =
    (self : LockFreeList) × (s ≡ success)
    × (o ≡ some self)
    × IsList v self [] (fragment_at fresh (node_size n) 2)
        (fragments capacity 3 fresh (node_size n)) (fragment_at fresh (node_size n) 1 ∷ fresh ∷ [])
    × (self.val_bytes ≡ n)
    × (self.pool.capacity ≡ capacity + 2)
    × (length v.spurious ≤ length w.spurious)

-- A node without a value has the bytes of its fragment.
NodeMade-bytes :
    {w : World} {self : LockFreeList} {p q : Ptr} {free out : List Ptr} {key : ℕ}
    {r : Ptr × LockFreeList} {v : World}
    → NodeMade w self p q free out key none r v
    → (a : Ptr) → bytes_at v.heap a ≡ bytes_at w.heap a
NodeMade-bytes {w} {p} {v} made a = elim (Bool-cases (a == p)) [
  | inl here ↦
      let at : a ≡ p = ground arith in
      ap (bytes_at v.heap) at
      ∙ ap bytes_of made.holds.cell
      ∙ sym made.was
      ∙ sym (ap (bytes_at w.heap) at)
  | inr other ↦ ap bytes_of (made.others a (ground arith))
]

module _ {u v w : World} {s0 s1 : LockFreeList} {h t q : Ptr} {free : List Ptr}
    {r : Ptr × LockFreeList} {r' : Ptr × LockFreeList} {z : List ℕ}
    (one : NodeMade u s0 h t (q ∷ free) [] key_min none r v)
    (two : NodeMade v s1 t q free (h ∷ []) key_max none r' w) (same : s1.val_bytes ≡ s0.val_bytes)
    (zeros : (a : Ptr) → a ∈ h ∷ t ∷ q ∷ free → bytes_at u.heap a ≡ some z)
    (enough : s0.val_bytes + 16 ≤ length z) where
  apart : t ≢ h
  apart = ground (arith, two.pool.distinct)

  head_at : Holds w.heap h (blank key_min one.old)
  head_at = record {
    ne_null = one.holds.ne_null;
    cell = two.others h (λ e. apart (sym e)) ∙ one.holds.cell;
  }

  abbrev head_cell : Cell
  head_cell = record (blank key_min one.old) { next = node 0 t }

  -- The world after the head points to the tail.
  abbrev joined : World
  joined = record w { heap = write w.heap h (some head_cell) }

  joined_bytes : (a : Ptr) → bytes_at joined.heap a ≡ bytes_at u.heap a
  joined_bytes a = elim (Bool-cases (a == h)) [
    | inl here ↦
        let at : a ≡ h = ground arith in
        ap (bytes_at joined.heap) at
        ∙ ap bytes_of (write_here w.heap h _)
        ∙ sym one.was
        ∙ sym (ap (bytes_at u.heap) at)
    | inr other ↦
        ap bytes_of (write_other w.heap h _ a (ground arith))
        ∙ NodeMade-bytes two a
        ∙ NodeMade-bytes one a
  ]

  joined_cells : (a : Ptr) → a ∈ t ∷ h ∷ [] → (c : Cell) × Holds joined.heap a c
  joined_cells a m = elim (Bool-cases (a == h)) [
    | inl here ↦
        let at : h ≡ a = ground arith in
        (
          head_cell,
          subst (λ x. Holds joined.heap x head_cell) at
              (record { ne_null = head_at.ne_null; cell = write_here w.heap h _ }),
        )
    | inr other ↦
        let (c, holds) = two.pool.cells a m in
        (
          c,
          record {
            ne_null = holds.ne_null;
            cell = write_other w.heap h _ a (ground arith) ∙ holds.cell;
          },
        )
  ]

  joined-IsList :
      IsList joined (record s1 { pool = two.new_pool; head = h; tail = t }) [] q free (t ∷ h ∷ [])
  joined-IsList = record {
    pool =
        IsPool-used w joined two.pool (λ a o. write_other w.heap h _ a (ground arith)) joined_cells;
    span = record {
      cell = _;
      holds = record { ne_null = head_at.ne_null; cell = write_here w.heap h _ };
      is_next = refl;
      is_key = refl;
    };
    last = record {
      cell = _;
      holds = record {
        ne_null = two.holds.ne_null;
        cell = write_other w.heap h _ t apart ∙ two.holds.cell;
      };
      is_next = refl;
      is_key = refl;
    };
    below = omega arith;
    used = λ a. ground arith;
    used_count = refl;
    room = λ a b m e.
        let eq : some b ≡ some z = sym e ∙ joined_bytes a ∙ zeros a (ground arith) in
        let eq_b : b ≡ z = cc in omega (arith, ap length eq_b, same, enough);
  }

module _ {fresh : Ptr} {n capacity : ℕ}
    (space : InSpace fresh (list_node_bytes + n) (suc (suc capacity))) (some_bytes : n ≢ 0)
    (some_capacity : capacity ≢ 0) (small : capacity + 3 < size_max) where
  abbrev size : ℕ
  size = node_size n

  enough : n + 16 ≤ length ((zeroed size).bytes)
  enough = omega (
    arith,
    (internal_mempool_aligned_data_bytes-IsAligned (list_node_bytes + n) space.small).room,
    length-replicate {A = ℕ} (size - 16) 0,
  )

  zero_room : (x : List ℕ) → some x ≡ some ((zeroed size).bytes) → n + 16 ≤ length x
  zero_room x e = let eq : x ≡ (zeroed size).bytes = cc in omega (arith, ap length eq, enough)

  -- With a block that `calloc` finds for the nodes (not NULL, and inside the address space), value
  -- size and capacity not zero and the capacity below its bound, `list_create` succeeds and makes
  -- an empty list with that value size, in a pool with two fragments more than the capacity.
  pub create-IsList :
      (old : LockFreeList) (w : World)
      → Returns (ListCreated w fresh n capacity) (list_create fresh (some old) n capacity w)
  unfolding list_create
  create-IsList old w =
      let b : (n == 0) ≡ false = ground arith in
      let c : (capacity == 0) ≡ false = ground arith in
      let k : (capacity + 2) % size_max ≡ suc (suc capacity) = omega arith in
      let m : (list_node_bytes + n) % size_max ≡ list_node_bytes + n = omega (arith, space.small) in
      rw (b, c, k, m)
        (Returns.bind (create-Created space (omega arith) (omega arith) old.pool w)
          λ (s, o) u
              (
                pool, done, made, is, at, data_bytes, room, blocks, others, zeros, errno,
                other_blocks, fewer,
              ).
            let t = fragment_at fresh size 1 in
            let zeros' : (a : Ptr)
                → a ∈ fresh ∷ t ∷ fragment_at fresh size 2 ∷ fragments capacity 3 fresh size
                → bytes_at u.heap a ≡ some ((zeroed size).bytes) =
              λ a m. zeros a (ground (arith, first_fragment space)) in
            rw (done, made)
              (Returns.bind
                (alloc_node-NodeMade {self = record old { pool = pool; val_bytes = n }} key_min none
                  is tt (λ x e. zero_room x (sym e ∙ zeros' fresh (ground arith))))
                λ r v one. rw one.got (
                  Returns.bind
                    (alloc_node-NodeMade
                      {self = record old { pool = one.new_pool; val_bytes = n; head = fresh }}
                      key_max none one.pool tt
                      (λ x e. zero_room x (sym e ∙ NodeMade-bytes one t ∙ zeros' t (ground arith))))
                    λ r' x two.
                      rw
                        (
                          two.got,
                          set_next-ok x (head_at one two refl zeros' enough)
                              (node 0 (fragment_at fresh size 1)),
                        )
                        (returns (
                          _,
                          refl,
                          refl,
                          joined-IsList one two refl zeros' enough,
                          refl,
                          omega (arith, two.config.capacity, one.config.capacity, room),
                          omega (arith, fewer, one.fewer, two.fewer),
                        )))))
