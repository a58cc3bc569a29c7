-- ===== src/MempoolTests.antt =====
-- The theorems at concrete pools.
use coop_tasks.Base.{◌+◌, ◌≤◌, ◌≡◌, ◌↔◌, refl, true, false, Option, none, some, [], ◌∷◌, ◌*◌, arith}
use coop_tasks.Heap.{World, Ptr, null, node, ok}
use coop_tasks.Heap.Returns.{Returns, outcome}
use coop_tasks.Mempool.{
  Pool, Status, InSpace, Created, create-Created, Allocated, alloc-Allocated, Freed, free-Freed,
  Cleared, clear-Cleared, contains_iff, IsAligned, internal_mempool_aligned_data_bytes-IsAligned,
  memory_pool_maker, mempool_create, mempool_alloc, mempool_free, mempool_clear, mempool_contains,
  internal_mempool_aligned_data_bytes, fragment_at, block_of,
}

-- Two of the first three compare-exchanges fail spuriously.
abbrev pub world : World
world = record {
  heap = λ _. none;
  blocks = λ _. none;
  errno = 0;
  spurious = true ∷ false ∷ true ∷ [];
}

abbrev pub no_pool : Pool
no_pool = memory_pool_maker 0 0 0

pool_space : InSpace 4096 24 3
unfolding internal_mempool_aligned_data_bytes
pool_space = record { ne_null = omega arith; small = omega arith; fits = omega arith }

create-Created_example :
    Returns (Created world 4096 24 3) (mempool_create 4096 (some no_pool) 24 3 world)
create-Created_example = create-Created pool_space (omega arith) (omega arith) no_pool world

created : (a : Status × Option Pool) × (w : World) × Created world 4096 24 3 a w
created = outcome (create-Created pool_space (omega arith) (omega arith) no_pool world)

alloc-Allocated_example :
    Returns
      (Allocated created.1 created.2.0 4096
        (fragment_at 4096 32 1)
        (fragment_at 4096 32 2 ∷ fragment_at 4096 32 3 ∷ [])
        [])
      (mempool_alloc (some created.2.0) created.1)
unfolding internal_mempool_aligned_data_bytes
alloc-Allocated_example = alloc-Allocated created.2.3

-- The pool after one fragment was handed out.
handed :
    (a : Ptr × Option Pool) × (w : World) × Allocated created.1 created.2.0 4096
      (fragment_at 4096 32 1)
      (fragment_at 4096 32 2 ∷ fragment_at 4096 32 3 ∷ [])
      []
      a
      w
unfolding internal_mempool_aligned_data_bytes
handed = outcome (alloc-Allocated created.2.3)

free-Freed_example :
    Returns
      (Freed handed.1 handed.2.0
        (fragment_at 4096 32 1)
        (fragment_at 4096 32 2 ∷ fragment_at 4096 32 3 ∷ [])
        (4096 ∷ [])
        4096)
      (mempool_free (some handed.2.0) 4096 handed.1)
free-Freed_example = free-Freed 4096 handed.2.3.is refl

abbrev a_pool : Pool
a_pool = memory_pool_maker 4096 24 3

-- A world in which every address holds a cell.
abbrev full_world : World
full_world = record world {
  heap = λ _. some (record { next = node 7 9; backlink = null; key = 0; bytes = [] });
}

clear-Cleared_example : Returns (Cleared full_world a_pool) (mempool_clear (some a_pool) full_world)
unfolding internal_mempool_aligned_data_bytes
clear-Cleared_example = clear-Cleared a_pool full_world pool_space (λ a m. (
  record { next = node 7 9; backlink = null; key = 0; bytes = [] },
  record { ne_null = ground arith; cell = refl },
))

contains_iff_example :
    (mempool_contains (some a_pool) 4193 world ≡ ok true world)
    ↔ ((4096 ≤ 4193) × (4193 ≤ 4096 + internal_mempool_aligned_data_bytes 24 * 3))
contains_iff_example = contains_iff a_pool world pool_space 4193

abbrev blocked : World
blocked = record full_world { blocks = λ _. some (block_of 24 3) }

internal_mempool_aligned_data_bytes-IsAligned_example :
    IsAligned 24 (internal_mempool_aligned_data_bytes 24)
internal_mempool_aligned_data_bytes-IsAligned_example =
    internal_mempool_aligned_data_bytes-IsAligned 24 (omega arith)
