-- ===== src/Heap/Access.antt =====
-- Reads, writes and compare-exchanges at an address that holds a cell.
use coop_tasks.Base.{
  ℕ, suc, ◌≤◌, ◌≡◌, ◌≢◌, inl, inr, refl, Bool, true, false, Option, some, List, [], ◌∷◌, arith,
  ◌==◌, if◌then◌else◌, length, leb, take, drop, ◌++◌, Option-cases, Bool-cases,
}
use coop_tasks.Heap.{
  Ptr, null, Node, equals, Cell, Heap, World, ok, write, load, store, set_next, agree, cas_next,
  head_or, memcpy, tail_of,
}
use coop_tasks.Heap.Chain.{link_at, bytes_at}

-- `a` can be read, and holds `c`.
pub record Holds (h : Heap) (a : Ptr) (c : Cell) : Type 0 where
  pub ne_null : a ≢ null
  pub cell : h a ≡ some c

pub Holds-of_link :
    (h : Heap) (a q : Ptr)
    → a ≢ null
    → link_at h a ≡ some q
    → (c : Cell) × Holds h a c × (c.next.frag ≡ q)
Holds-of_link h a q ne e = elim (Option-cases (h a)) [
  | inl absent ↦ ground arith
  | inr (c, is) ↦ (c, record { ne_null = ne; cell = is }, ground arith)
]

pub Holds-of_bytes :
    (h : Heap) (a : Ptr) (b : List ℕ) → a ≢ null → bytes_at h a ≡ some b → (c : Cell) × Holds h a c
Holds-of_bytes h a b ne e = elim (Option-cases (h a)) [
  | inl absent ↦ ground arith
  | inr (c, is) ↦ (c, record { ne_null = ne; cell = is })
]

-- What a write leaves at every address.
pub link_at-write :
    (h : Heap) (a : Ptr) (c : Cell) (b : Ptr)
    → link_at (write h a (some c)) b ≡ (if b == a then some c.next.frag else link_at h b)
link_at-write h a c b = elim (Bool-cases (b == a)) [
  | inl same ↦ rw (same, link_at, write)
  | inr other ↦ rw (other, link_at, write)
]

pub bytes_at-write :
    (h : Heap) (a : Ptr) (c : Cell) (b : Ptr)
    → bytes_at (write h a (some c)) b ≡ (if b == a then some c.bytes else bytes_at h b)
bytes_at-write h a c b = elim (Bool-cases (b == a)) [
  | inl same ↦ rw (same, bytes_at, write)
  | inr other ↦ rw (other, bytes_at, write)
]

pub write_here : (h : Heap) (a : Ptr) (o : Option Cell) → write h a o a ≡ o
write_here h a o = ground arith

pub write_other : (h : Heap) (a : Ptr) (o : Option Cell) (b : Ptr) → b ≢ a → write h a o b ≡ h b
write_other h a o b ne = let other : (b == a) ≡ false = ground arith in rw other

pub link_at-Holds : (h : Heap) (a : Ptr) (c : Cell) → Holds h a c → link_at h a ≡ some c.next.frag
link_at-Holds h a c at = rw (at.cell, link_at)

pub bytes_at-Holds : (h : Heap) (a : Ptr) (c : Cell) → Holds h a c → bytes_at h a ≡ some c.bytes
bytes_at-Holds h a c at = rw (at.cell, bytes_at)

module _ (w : World) {a : Ptr} {c : Cell} (at : Holds w.heap a c) where
  open at use {ne_null, cell}

  pub load-ok : load a w ≡ ok c w
  unfolding load
  load-ok = let nn : (a == null) ≡ false = ground arith in rw (nn, cell)

  pub store-ok : (d : Cell) → store a d w ≡ ok tt (record w { heap = write w.heap a (some d) })
  unfolding store
  store-ok d = rw load-ok

  pub set_next-ok :
      (n : Node)
      → set_next a n w ≡ ok tt (record w { heap = write w.heap a (some (record c { next = n })) })
  unfolding set_next
  set_next-ok n = rw (load-ok, store-ok)

-- Each answer that is used up shortens the list of spurious failures.
pub length-tail_of : (bs : List Bool) → length (tail_of bs) ≤ length bs
length-tail_of [] = omega arith
length-tail_of (b ∷ bs) = omega arith

pub length-tail_of-lt : (bs : List Bool) → head_or bs ≡ true → suc (length (tail_of bs)) ≡ length bs
length-tail_of-lt [] h = cc
length-tail_of-lt (b ∷ bs) h = refl

-- A compare-exchange fails on a spurious failure, and otherwise if the values differ.
abbrev pub answered : World → World
answered w = record w { spurious = tail_of w.spurious }

pub agree-lost :
    (w : World) (a b : Node) → head_or w.spurious ≡ true → agree a b w ≡ ok false (answered w)
unfolding agree
agree-lost w a b h = rw h

pub agree-won :
    (w : World) (a : Node) → head_or w.spurious ≡ false → agree a a w ≡ ok true (answered w)
unfolding agree
agree-won w a h = let same : equals a a ≡ true = ground arith in rw (h, same)

module _ (w : World) {a : Ptr} {c : Cell} (at : Holds w.heap a c) (n : Node) where
  pub cas_next-lost : head_or w.spurious ≡ true → cas_next a c.next n w ≡ ok false (answered w)
  unfolding cas_next
  cas_next-lost h = rw (load-ok w at, agree-lost w c.next c.next h)

  pub cas_next-won :
      head_or w.spurious ≡ false
      → cas_next a c.next n w
        ≡ ok true (record (answered w) { heap = write w.heap a (some (record c { next = n })) })
  unfolding cas_next
  cas_next-won h =
      let at' : Holds (answered w).heap a c = record { ne_null = at.ne_null; cell = at.cell } in
      rw (load-ok w at, agree-won w c.next h, store-ok (answered w) at' (record c { next = n }))

-- A copy within both buffers.
pub memcpy-ok :
    (n : ℕ) (dst src : List ℕ) (w : World)
    → n ≤ length dst
    → n ≤ length src
    → memcpy n dst src w ≡ ok (take n src ++ drop n dst) w
unfolding memcpy
memcpy-ok n dst src w h k =
    let in_dst : leb n (length dst) ≡ true = ground arith in
    let in_src : leb n (length src) ≡ true = ground arith in rw (in_dst, in_src)
