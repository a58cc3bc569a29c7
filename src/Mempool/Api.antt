-- ===== src/Mempool/Api.antt =====
-- `mempool_alloc` and `mempool_free`: a fragment is handed out to one user at a time, in the order
-- in which the fragments became free.
use coop_tasks.Base.{◌≡◌, refl, Option, some, List, [], ◌∷◌, arith, ◌==◌, false, ◌∈◌, ◌∉◌}
use coop_tasks.Heap.{Ptr, null, World, ok, enomem}
use coop_tasks.Heap.Returns
use coop_tasks.Heap.Returns.{Returns, returns}
use coop_tasks.Mempool.Defs.{Pool, mempool_alloc, mempool_free}
use coop_tasks.Mempool.Inv.{IsPool, Put, Picked, put_lem, pick_lem, pick_empty}

-- `p` is handed out: it is no fragment in use, and the fragment after it is next.
abbrev pub Allocated :
    World → Pool → (p q : Ptr) → (qs out : List Ptr) → Ptr × Option Pool → World → Type 0
Allocated w self p q qs out (r, o) v =
    (self' : Pool) × (o ≡ some self') × (r ∉ out) × Picked w self p q qs out (r, self') v

-- `f` is at the end of the free fragments.
abbrev pub Freed : World → Pool → Ptr → (qs out : List Ptr) → Ptr → Option Pool → World → Type 0
Freed w self p qs out f o v = (self' : Pool) × (o ≡ some self') × Put w self p qs out f self' v

module _ {w : World} {self : Pool} {p : Ptr} {out : List Ptr} where
  -- On a well-formed pool with a free fragment behind the dummy `p`, `mempool_alloc` hands out `p`,
  -- which is no fragment in use; the pool stays well formed with `p` in use, its fields are as they
  -- were, and so is the heap.
  pub alloc-Allocated :
      {q : Ptr} {qs : List Ptr}
      → IsPool w self p (q ∷ qs) out
      → Returns (Allocated w self p q qs out) (mempool_alloc (some self) w)
  unfolding mempool_alloc
  alloc-Allocated is =
      Returns.bind (pick_lem is)
        λ (r, self') v got. returns (self', refl, ground (arith, is.apart p, got.got), got)

  -- On a well-formed pool with only its dummy free, `mempool_alloc` returns NULL with ENOMEM, and
  -- nothing but the error number changes.
  pub alloc-empty :
      IsPool w self p [] out
      → mempool_alloc (some self) w ≡ ok (null, some self) (record w { errno = enomem })
  unfolding mempool_alloc
  alloc-empty is = rw (pick_empty is)

  -- On a well-formed pool `mempool_free` of a fragment in use puts it behind the free ones: the
  -- pool stays well formed, and only the link of that fragment and of the last free one change.
  pub free-Freed :
      {qs : List Ptr} (f : Ptr)
      → IsPool w self p qs out
      → f ∈ out
      → Returns (Freed w self p qs out f) (mempool_free (some self) f w)
  unfolding mempool_free
  free-Freed f is mine =
      let (c, at) = is.cells f mine in
      let got : (f == null) ≡ false = ground (arith, at.ne_null) in
      rw got (Returns.bind (put_lem f is mine) λ self' v put. returns (self', refl, put))
