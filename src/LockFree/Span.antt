-- ===== src/LockFree/Span.antt =====
-- The nodes of a list from one node to its end, in the order of their keys, with no mark and no flag.
use coop_tasks.Base.{
  ℕ, ◌<◌, ◌≤◌, ◌≡◌, ◌≢◌, refl, sym, ap, ◌∙◌, some, List, [], ◌∷◌, ◌++◌, arith, leb, if◌then◌else◌,
  take, drop, ◌∈◌, ◌∉◌,
}
use coop_tasks.Heap.{Ptr, node, Heap, Cell}
use coop_tasks.Heap.Access.{Holds}
use coop_tasks.Heap.Chain.{bytes_at, bytes_of}

-- A node, its key and its value.
pub record Entry : Type 0 where
  pub at : Ptr
  pub key : ℕ
  pub val : List ℕ

abbrev pub ats : List Entry → List Ptr
ats [] = []
ats (e ∷ es) = e.at ∷ ats es

-- A node with a key that points to `next`.
pub record IsNode (h : Heap) (a : Ptr) (key : ℕ) (next : Ptr) : Type 0 where
  pub cell : Cell
  pub holds : Holds h a cell
  pub is_next : cell.next ≡ node 0 next
  pub is_key : cell.key ≡ key

-- The first `n` bytes behind backlink and key are `val`.
pub record HasVal (h : Heap) (n : ℕ) (a : Ptr) (val : List ℕ) : Type 0 where
  pub bytes : List ℕ
  pub is_bytes : bytes_at h a ≡ some bytes
  pub is_val : take n (drop 16 bytes) ≡ val

-- The first of some entries, or the node behind them.
abbrev pub first : List Entry → Ptr → Ptr
first [] t = t
first (e ∷ es) t = e.at

-- From `a`, with the key `k`, through the entries to `t`.
abbrev pub Span : Heap → ℕ → Ptr → ℕ → List Entry → Ptr → Type 0
Span h n a k [] t = IsNode h a k t
Span h n a k (e ∷ es) t =
    IsNode h a k e.at × (k < e.key) × HasVal h n e.at e.val × Span h n e.at e.key es t

-- The node before the rest of the entries, and its key.
abbrev pub at_end : Ptr → List Entry → Ptr
at_end a [] = a
at_end a (e ∷ es) = at_end e.at es

abbrev pub key_end : ℕ → List Entry → ℕ
key_end k [] = k
key_end k (e ∷ es) = key_end e.key es

-- The entries up to a key, and those behind it.
abbrev pub upto : ℕ → List Entry → List Entry
upto key [] = []
upto key (e ∷ es) = if leb e.key key then e ∷ upto key es else []

abbrev pub from : ℕ → List Entry → List Entry
from key [] = []
from key (e ∷ es) = if leb e.key key then from key es else e ∷ es

pub upto-from : (key : ℕ) (es : List Entry) → upto key es ++ from key es ≡ es
upto-from key [] = refl
upto-from key (e ∷ es) = ground (arith, upto-from key es)

pub IsNode-frame :
    {h h' : Heap} {a : Ptr} {k : ℕ} {next : Ptr}
    → h' a ≡ h a
    → IsNode h a k next
    → IsNode h' a k next
IsNode-frame same is = record {
  cell = is.cell;
  holds = record { ne_null = is.holds.ne_null; cell = same ∙ is.holds.cell };
  is_next = is.is_next;
  is_key = is.is_key;
}

pub HasVal-frame :
    {h h' : Heap} {n : ℕ} {a : Ptr} {val : List ℕ}
    → bytes_at h' a ≡ bytes_at h a
    → HasVal h n a val
    → HasVal h' n a val
HasVal-frame same is = record {
  bytes = is.bytes;
  is_bytes = same ∙ is.is_bytes;
  is_val = is.is_val;
}

-- The first node of a span.
pub Span-IsNode :
    (h : Heap) (n : ℕ) (a : Ptr) (k : ℕ) (es : List Entry) (t : Ptr)
    → Span h n a k es t
    → IsNode h a k (first es t)
Span-IsNode h n a k [] t s = s
Span-IsNode h n a k (e ∷ es) t s = s.0

-- A change elsewhere leaves a span.
pub Span-frame :
    (h h' : Heap) (n : ℕ) (a : Ptr) (k : ℕ) (es : List Entry) (t : Ptr)
    → ((b : Ptr) → b ∈ a ∷ ats es → h' b ≡ h b)
    → Span h n a k es t
    → Span h' n a k es t
Span-frame h h' n a k [] t same s = IsNode-frame (same a (ground arith)) s
Span-frame h h' n a k (e ∷ es) t same (node_, lt, val, s) = (
  IsNode-frame (same a (ground arith)) node_,
  lt,
  HasVal-frame (ap bytes_of (same e.at (ground arith))) val,
  Span-frame h h' n e.at e.key es t (λ b m. same b (ground arith)) s,
)

-- Nodes with different keys are different.
pub IsNode-ne :
    {h : Heap} {a b : Ptr} {k l : ℕ} {x y : Ptr} → IsNode h a k x → IsNode h b l y → k ≢ l → a ≢ b
IsNode-ne {h} p q ne e =
    let same : some p.cell ≡ some q.cell = sym p.holds.cell ∙ ap h e ∙ q.holds.cell in
    let eq : p.cell ≡ q.cell = cc in ne (sym p.is_key ∙ ap (λ c. c.key) eq ∙ q.is_key)

-- A node with a smaller key is not in the span.
pub Span-above :
    (h : Heap) (n : ℕ) (a : Ptr) (k : ℕ) (es : List Entry) (t : Ptr) {p : Ptr} {m : ℕ} {x : Ptr}
    → Span h n a k es t
    → IsNode h p m x
    → m < k
    → p ∉ a ∷ ats es
Span-above h n a k [] t s at lt = ground (arith, IsNode-ne at s)
Span-above h n a k (e ∷ es) t s at lt =
    ground (arith, IsNode-ne at s.0, Span-above h n e.at e.key es t s.3 at)

-- A span to `at_end` and from there on.
pub Span-rest :
    (h : Heap) (n : ℕ) (a : Ptr) (k : ℕ) (l r : List Entry) (t : Ptr)
    → Span h n a k (l ++ r) t
    → Span h n (at_end a l) (key_end k l) r t
Span-rest h n a k [] r t s = s
Span-rest h n a k (e ∷ l) r t s = Span-rest h n e.at e.key l r t s.3

pub key_end-le :
    (h : Heap) (n : ℕ) (a : Ptr) (k : ℕ) (l r : List Entry) (t : Ptr)
    → Span h n a k (l ++ r) t
    → k ≤ key_end k l
key_end-le h n a k [] r t s = omega arith
key_end-le h n a k (e ∷ l) r t s = omega (arith, s.1, key_end-le h n e.at e.key l r t s.3)

-- The entries behind a node may be replaced, if the nodes before it and all values stay.
pub Span-replace :
    (h h' : Heap) (n : ℕ) (a : Ptr) (k : ℕ) (l r r' : List Entry) (t : Ptr)
    → Span h n a k (l ++ r) t
    → ((b : Ptr) → b ∈ a ∷ ats l → b ≢ at_end a l → h' b ≡ h b)
    → ((b : Ptr) → b ∈ ats l → bytes_at h' b ≡ bytes_at h b)
    → Span h' n (at_end a l) (key_end k l) r' t
    → Span h' n a k (l ++ r') t
Span-replace h h' n a k [] r r' t s same bytes s' = s'
Span-replace h h' n a k (e ∷ l) r r' t (node_, lt, val, s) same bytes s' = (
  IsNode-frame
      (same a (ground arith) (
        IsNode-ne node_
          (Span-IsNode h n (at_end e.at l) (key_end e.key l) r t (Span-rest h n e.at e.key l r t s))
          (omega (arith, lt, key_end-le h n e.at e.key l r t s))))
      node_,
  lt,
  HasVal-frame (bytes e.at (ground arith)) val,
  Span-replace h h' n e.at e.key l r r' t s (λ b m. same b (ground arith))
      (λ b m. bytes b (ground arith)) s',
)
