-- ===== src/LockFree/Inv.antt =====
-- What a list stands for.
use coop_tasks.Base.{
  ℕ, ◌+◌, ◌<◌, ◌≤◌, ◌≡◌, sym, ap, subst, ◌∙◌, true, ◌||◌, some, List, ◌∷◌, length, has,
}
use coop_tasks.Heap.{Ptr, null, World}
use coop_tasks.Heap.Chain.{link_at, bytes_at}
use coop_tasks.Mempool.{IsPool, IsPool-frame}
use coop_tasks.LockFree.Defs.{LockFreeList}
use coop_tasks.LockFree.Ops.{key_min, key_max}
use coop_tasks.LockFree.Span.{
  Entry, ats, IsNode, IsNode-frame, Span, Span-frame, Span-rest, upto, from, at_end, key_end,
  upto-from,
}
use coop_tasks.LockFree.Search.{Ends}

-- The nodes of the entries stand between `head` and `tail`, in the order of their keys; `p` and
-- `free` are the pool's. Each fragment has room for a node.
pub record IsList (w : World) (self : LockFreeList) (es : List Entry) (p : Ptr)
    (free out : List Ptr) : Type 0 where
  pub pool : IsPool w self.pool p free out
  pub span : Span w.heap self.val_bytes self.head key_min es self.tail
  pub last : IsNode w.heap self.tail key_max null
  pub below : key_end key_min es < key_max
  pub used : (a : Ptr) → has a out ≡ has a (self.head ∷ self.tail ∷ ats es)
  pub used_count : length out ≡ length es + 2
  pub room :
      (a : Ptr) (b : List ℕ)
      → (has a (p ∷ free) || has a out) ≡ true
      → bytes_at w.heap a ≡ some b
      → self.val_bytes + 16 ≤ length b

-- The keys that a caller may use.
pub record IsUserKey (key : ℕ) : Type 0 where
  pub above_min : key_min < key
  pub below_max : key < key_max

module _ {w : World} {self : LockFreeList} {es : List Entry} {p : Ptr} {free out : List Ptr}
    (is : IsList w self es p free out) where
  pub IsList-Ends : (key : ℕ) → key < key_max → Ends w self.tail key
  IsList-Ends key lt = record { bound = key_max; next = null; is = is.last; above = lt }

  -- The list from the last node up to a key on.
  pub rest-Span :
      (key : ℕ)
      → Span w.heap self.val_bytes
          (at_end self.head (upto key es))
          (key_end key_min (upto key es))
          (from key es)
          self.tail
  rest-Span key =
      Span-rest w.heap self.val_bytes self.head key_min (upto key es) (from key es) self.tail (
        subst (λ xs. Span w.heap self.val_bytes self.head key_min xs self.tail)
          (sym (upto-from key es)) is.span)

  -- A change of what is no node, or of the error number or the answers, leaves a list.
  pub IsList-same : {v : World} → v.heap ≡ w.heap → IsList v self es p free out
  IsList-same {v} same = record {
    pool =
        IsPool-frame w v is.pool (λ a m. ap (λ h. link_at h a) same)
          (λ a m.
            let (c, at) = is.pool.cells a m in
            (c, record { ne_null = at.ne_null; cell = ap (λ h. h a) same ∙ at.cell }));
    span =
        Span-frame w.heap v.heap self.val_bytes self.head key_min es self.tail
          (λ b m. ap (λ h. h b) same) is.span;
    last = IsNode-frame (ap (λ h. h self.tail) same) is.last;
    below = is.below;
    used = is.used;
    used_count = is.used_count;
    room = λ a b m e. is.room a b m (sym (ap (λ h. bytes_at h a) same) ∙ e);
  }
