-- ===== src/LockFree/Change.antt =====
-- Changes of a span at one node.
use coop_tasks.Base.{
  ℕ, ◌<◌, ◌≡◌, refl, ap, List, [], ◌∷◌, ◌++◌, arith, ◌∈◌, ◌∉◌, has, ◌||◌, leb, inl, inr, Bool-cases,
}
use coop_tasks.Heap.{Ptr, Heap, Cell, World}
use coop_tasks.Heap.Access.{Holds}
use coop_tasks.Heap.Chain.{bytes_of, link_of}
use coop_tasks.Mempool.{Pool, IsPool, IsPool-frame}
use coop_tasks.LockFree.Search.{Ends}
use coop_tasks.LockFree.Span.{
  Entry, ats, IsNode, IsNode-ne, HasVal-frame, Span, Span-IsNode, Span-frame, Span-above, first,
  at_end, key_end, key_end-le, from,
}

-- The entries are above a key.
abbrev pub Above : ℕ → List Entry → Type 0
Above k [] = Unit {0}
Above k (e ∷ es) = k < e.key

-- A node with a greater key is not before the end of a span.
pub Span-below :
    (h : Heap) (n : ℕ) (a : Ptr) (k : ℕ) (l r : List Entry) (t : Ptr) {q : Ptr} {m : ℕ} {x : Ptr}
    → Span h n a k (l ++ r) t
    → IsNode h q m x
    → key_end k l < m
    → q ∉ a ∷ ats l
Span-below h n a k [] r t s at lt = ground (arith, IsNode-ne at (Span-IsNode h n a k r t s))
Span-below h n a k (e ∷ l) r t s at lt = ground (
  arith,
  IsNode-ne at s.0,
  s.1,
  key_end-le h n e.at e.key l r t s.3,
  Span-below h n e.at e.key l r t s.3 at,
)

-- A span from another node on, or from the same one with a new cell.
pub Span-reroot :
    (h h' : Heap) (n : ℕ) (a : Ptr) (k : ℕ) (b : Ptr) (m : ℕ) (r : List Entry) (t : Ptr)
    → Span h n a k r t
    → IsNode h' b m (first r t)
    → Above m r
    → ((c : Ptr) → c ∈ ats r → h' c ≡ h c)
    → Span h' n b m r t
Span-reroot h h' n a k b m [] t s is up same = is
Span-reroot h h' n a k b m (e ∷ r) t (node_, lt, val, s) is up same = (
  is,
  up,
  HasVal-frame (ap bytes_of (same e.at (ground arith))) val,
  Span-frame h h' n e.at e.key r t same s,
)

pub ats-append :
    (l r : List Entry) (a : Ptr) → has a (ats (l ++ r)) ≡ (has a (ats l) || has a (ats r))
ats-append [] r a = refl
ats-append (e ∷ l) r a = ground (arith, ats-append l r a)

pub at_end-mem : (a : Ptr) (l : List Entry) → at_end a l ∈ a ∷ ats l
at_end-mem a [] = ground arith
at_end-mem a (e ∷ l) = ground (arith, at_end-mem e.at l)

pub key_end-middle :
    (k : ℕ) (l : List Entry) (e e' : Entry) (r : List Entry)
    → e'.key ≡ e.key
    → key_end k (l ++ e' ∷ r) ≡ key_end k (l ++ e ∷ r)
key_end-middle k [] e e' r same = ap (λ x. key_end x r) same
key_end-middle k (x ∷ l) e e' r same = key_end-middle x.key l e e' r same

-- A pool whose fragments in use have changed.
pub IsPool-used :
    (w v : World) {self : Pool} {p : Ptr} {qs out : List Ptr}
    → IsPool w self p qs out
    → ((a : Ptr) → a ∉ out → v.heap a ≡ w.heap a)
    → ((a : Ptr) → a ∈ out → (c : Cell) × Holds v.heap a c)
    → IsPool v self p qs out
IsPool-used w v is same cells =
    IsPool-frame w v is (λ a m. ap link_of (same a (ground (arith, is.apart a)))) cells

-- A node is not behind itself.
pub Span-not_behind :
    (h : Heap) (n : ℕ) (a : Ptr) (k : ℕ) (r : List Entry) (t : Ptr)
    → Span h n a k r t
    → (a ∉ ats r) × Above k r
Span-not_behind h n a k [] t s = (refl, tt)
Span-not_behind h n a k (e ∷ r) t s = (Span-above h n e.at e.key r t s.3 s.0 s.1, s.1)

-- Two lists of entries at the same nodes.
pub ats-middle :
    (l : List Entry) (e e' : Entry) (r : List Entry) (a : Ptr)
    → e'.at ≡ e.at
    → has a (ats (l ++ e' ∷ r)) ≡ has a (ats (l ++ e ∷ r))
ats-middle [] e e' r a same = ground arith
ats-middle (x ∷ l) e e' r a same = ground (arith, ats-middle l e e' r a same)

-- The entries behind a key are above it.
pub Above-from : (key : ℕ) (es : List Entry) → Above key (from key es)
Above-from key [] = tt
Above-from key (e ∷ es) = elim (Bool-cases (leb e.key key)) [
  | inl low ↦ rw low (Above-from key es)
  | inr high ↦ rw high (ground arith)
]

-- The node behind a key has a greater one.
pub Span-past :
    (w : World) (n : ℕ) (a : Ptr) (k : ℕ) {key m : ℕ} {t next : Ptr}
    → IsNode w.heap t m next
    → (r : List Entry) → Span w.heap n a k r t
    → Above key r
    → key < m
    → Ends w (first r t) key
Span-past w n a k {m} {next} last_ [] s up lt = record {
  bound = m;
  next = next;
  is = last_;
  above = lt;
}
Span-past w n a k {t} last_ (e ∷ r) s up lt = record {
  bound = e.key;
  next = first r t;
  is = Span-IsNode w.heap n e.at e.key r t s.3;
  above = up;
}
