-- ===== src/Queue/Inv.antt =====
-- What a queue stands for.
use coop_tasks.Base.{
  ℕ, suc, ◌+◌, ◌≤◌, ◌≡◌, refl, ap, ◌∙◌, true, ◌||◌, some, List, [], ◌∷◌, ◌++◌, arith, length, take,
  has, ◌∈◌,
}
use coop_tasks.Heap.{Ptr, Heap, World}
use coop_tasks.Heap.Chain.{link_at, bytes_at}
use coop_tasks.Msq.{IsLine}
use coop_tasks.Mempool.{IsPool, IsPool-frame}
use coop_tasks.Queue.Defs.{Queue}

-- The first `n` bytes behind the links of the values are the items.
abbrev pub Stored : Heap → ℕ → List Ptr → List (List ℕ) → Type 0
Stored h n [] [] = Unit {0}
Stored h n [] (x ∷ xs) = ⊥
Stored h n (v ∷ vs) [] = ⊥
Stored h n (v ∷ vs) (x ∷ xs) =
    ((b : List ℕ) × (bytes_at h v ≡ some b) × (take n b ≡ x)) × Stored h n vs xs

-- The dummy `d` and the values `vs` are the fragments in use; `p` and `free` are the pool's.
pub record IsQueue (w : World) (self : Queue) (d : Ptr) (vs : List Ptr) (p : Ptr)
    (free out : List Ptr) (items : List (List ℕ)) : Type 0 where
  pub pool : IsPool w self.pool p free out
  pub line : IsLine (link_at w.heap) self.ends d vs
  pub used : (a : Ptr) → has a out ≡ has a (d ∷ vs)
  pub used_count : length out ≡ suc (length vs)
  pub stored : Stored w.heap self.val_bytes vs items
  pub room :
      (a : Ptr) (b : List ℕ)
      → (has a (p ∷ free) || has a out) ≡ true
      → bytes_at w.heap a ≡ some b
      → self.val_bytes ≤ length b

-- A queue of `capacity` items that holds the given ones, first in first out.
pub record Represents (w : World) (self : Queue) (n capacity : ℕ) (items : List (List ℕ))
    : Type 0 where
  pub dummy : Ptr
  pub values : List Ptr
  pub first_free : Ptr
  pub free : List Ptr
  pub out : List Ptr
  pub is : IsQueue w self dummy values first_free free out items
  pub size : self.val_bytes ≡ n
  pub room : self.pool.capacity ≡ capacity + 1

pub Stored-frame :
    (h h' : Heap) (n : ℕ) (vs : List Ptr) (items : List (List ℕ))
    → ((a : Ptr) → a ∈ vs → bytes_at h' a ≡ bytes_at h a)
    → Stored h n vs items
    → Stored h' n vs items
Stored-frame h h' n [] [] same s = tt
Stored-frame h h' n [] (x ∷ xs) same s = s
Stored-frame h h' n (v ∷ vs) [] same s = s
Stored-frame h h' n (v ∷ vs) (x ∷ xs) same ((b, at, is), s) = (
  (b, same v (ground arith) ∙ at, is),
  Stored-frame h h' n vs xs (λ a m. same a (ground arith)) s,
)

pub Stored-append :
    (h : Heap) (n : ℕ) (vs : List Ptr) (items : List (List ℕ)) (v : Ptr) (b : List ℕ)
    → Stored h n vs items
    → bytes_at h v ≡ some b
    → Stored h n (vs ++ v ∷ []) (items ++ take n b ∷ [])
Stored-append h n [] [] v b s at = ((b, at, refl), tt)
Stored-append h n [] (x ∷ xs) v b s at = absurd s
Stored-append h n (u ∷ vs) [] v b s at = absurd s
Stored-append h n (u ∷ vs) (x ∷ xs) v b (here, s) at = (here, Stored-append h n vs xs v b s at)

pub length-Stored :
    (h : Heap) (n : ℕ) (vs : List Ptr) (items : List (List ℕ))
    → Stored h n vs items
    → length vs ≡ length items
length-Stored h n [] [] s = refl
length-Stored h n [] (x ∷ xs) s = absurd s
length-Stored h n (v ∷ vs) [] s = absurd s
length-Stored h n (v ∷ vs) (x ∷ xs) s = ap suc (length-Stored h n vs xs s.1)

-- The error number is no part of what a queue stands for.
pub IsQueue-errno :
    {w : World} {self : Queue} {d : Ptr} {vs : List Ptr} {p : Ptr} {free out : List Ptr}
    {items : List (List ℕ)} (e : ℕ)
    → IsQueue w self d vs p free out items
    → IsQueue (record w { errno = e }) self d vs p free out items
IsQueue-errno {w} e is = record {
  pool = IsPool-frame w (record w { errno = e }) is.pool (λ a m. refl) is.pool.cells;
  line = is.line;
  used = is.used;
  used_count = is.used_count;
  stored = is.stored;
  room = is.room;
}
