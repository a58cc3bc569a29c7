-- ===== src/Heap/Chain.antt =====
-- Singly linked chains of fragments, described by the pointer that each address holds in its link.
use coop_tasks.Base.{
  ℕ, ◌≡◌, ◌≢◌, refl, Option, none, some, List, [], ◌∷◌, ◌++◌, arith, ◌==◌, ◌∈◌, ◌∉◌, has-append,
  inl, inr, Bool-cases,
}
use coop_tasks.Heap.{Ptr, null, Cell, Heap}

-- The pointer in the link of the cell at an address, and the bytes behind that link.
abbrev pub link_at : Heap → Ptr → Option Ptr
link_at h p = elim (h p) [ none ↦ none | some c ↦ some c.next.frag ]

abbrev pub bytes_at : Heap → Ptr → Option (List ℕ)
bytes_at h p = elim (h p) [ none ↦ none | some c ↦ some c.bytes ]

-- The same of a cell that may be missing.
abbrev pub link_of : Option Cell → Option Ptr
link_of none = none
link_of (some c) = some c.next.frag

abbrev pub bytes_of : Option Cell → Option (List ℕ)
bytes_of none = none
bytes_of (some c) = some c.bytes

abbrev pub Links : Type 0
Links = Ptr → Option Ptr

-- From `p` the links lead through the distinct addresses `qs` to `NULL`.
abbrev pub Chain : Links → Ptr → List Ptr → Type 0
Chain l p [] = (p ≢ null) × (l p ≡ some null)
Chain l p (q ∷ qs) = (p ≢ null) × (l p ≡ some q) × (p ∉ q ∷ qs) × Chain l q qs

abbrev pub last : Ptr → List Ptr → Ptr
last p [] = p
last p (q ∷ qs) = last q qs

pub last-mem : (p : Ptr) (qs : List Ptr) → last p qs ∈ p ∷ qs
last-mem p [] = ground arith
last-mem p (q ∷ qs) = ground (arith, last-mem q qs)

pub last-append : (p : Ptr) (qs : List Ptr) (f : Ptr) → last p (qs ++ f ∷ []) ≡ f
last-append p [] f = refl
last-append p (q ∷ qs) f = last-append q qs f

pub Chain-ne_null : (l : Links) (p : Ptr) (qs : List Ptr) → Chain l p qs → p ≢ null
Chain-ne_null l p [] c = c.0
Chain-ne_null l p (q ∷ qs) c = c.0

pub mem-ne_null :
    (l : Links) (p : Ptr) (qs : List Ptr) (a : Ptr) → Chain l p qs → a ∈ p ∷ qs → a ≢ null
mem-ne_null l p [] a c m = ground arith
mem-ne_null l p (q ∷ qs) a c m = ground (arith, mem-ne_null l q qs a c.3)

pub link-last : (l : Links) (p : Ptr) (qs : List Ptr) → Chain l p qs → l (last p qs) ≡ some null
link-last l p [] c = c.1
link-last l p (q ∷ qs) c = link-last l q qs c.3

-- Every address of a chain holds a link.
pub mem-link :
    (l : Links) (p : Ptr) (qs : List Ptr) (a : Ptr)
    → Chain l p qs
    → a ∈ p ∷ qs
    → (q : Ptr) × (l a ≡ some q)
mem-link l p [] a c m = (null, ground arith)
mem-link l p (q ∷ qs) a c m = elim (Bool-cases (a == p)) [
  | inl e ↦ (q, ground arith)
  | inr ne ↦ mem-link l q qs a c.3 (ground arith)
]

-- A chain survives any change that spares its own links.
pub Chain-frame :
    (l l' : Links) (p : Ptr) (qs : List Ptr)
    → ((a : Ptr) → a ∈ p ∷ qs → l' a ≡ l a)
    → Chain l p qs
    → Chain l' p qs
Chain-frame l l' p [] same c = ground (arith, same p)
Chain-frame l l' p (q ∷ qs) same c =
    (c.0, ground (arith, same p), c.2, Chain-frame l l' q qs (λ a m. same a (ground arith)) c.3)

-- A new address goes behind the last one.
pub Chain-append :
    (l l' : Links) (p : Ptr) (qs : List Ptr) (f : Ptr)
    → f ≢ null
    → f ∉ p ∷ qs
    → l' f ≡ some null
    → l' (last p qs) ≡ some f
    → ((a : Ptr) → a ∈ p ∷ qs → a ≢ last p qs → l' a ≡ l a)
    → Chain l p qs
    → Chain l' p (qs ++ f ∷ [])
Chain-append l l' p [] f ne out end put same c = (c.0, put, ground arith, (ne, end))
Chain-append l l' p (q ∷ qs) f ne out end put same c = (
  c.0,
  ground (arith, same p, last-mem q qs),
  ground (arith, has-append p qs (f ∷ [])),
  Chain-append l l' q qs f ne (ground arith) end put (λ a m. same a (ground arith)) c.3,
)
