-- ===== src/Mempool/Inv.antt =====
-- What a memory pool stands for, and that putting and picking a fragment keep it.
use coop_tasks.Base.{
  ◌+◌, ◌<◌, ◌≤◌, ◌≡◌, ◌≢◌, refl, sym, ap, subst, ◌∙◌, some, List, [], ◌∷◌, ◌++◌, arith, ◌==◌, inc64,
  dec64, size_max, length, length-append, has-append, ◌∈◌, Disjoint, Distinct, erase, inl, inr,
  Bool-cases, mem_ne, has-erase, length-erase, Distinct-erase,
}
use coop_tasks.Heap.{Ptr, null, node, Cell, World, ok, write, enomem}
use coop_tasks.Heap.Access.{
  Holds, Holds-of_link, set_next-ok, link_at-write, bytes_at-write, write_other, bytes_at-Holds,
}
use coop_tasks.Heap.Chain.{link_at, bytes_at, last, last-mem}
use coop_tasks.Heap.Returns
use coop_tasks.Heap.Returns.{Returns, returns}
use coop_tasks.Msq.{
  Ends, IsLine, IsLine-frame, OnlyAnswers, Appended, link_last-Appended, Taken, unlink_first-Taken,
  unlink_first-empty,
}
use coop_tasks.Mempool.Defs.{Pool, internal_mempool_put, internal_mempool_pick, no_peek, picked}

-- The fragments `qs` behind the dummy `p` can be picked, in that order; `out` are those in use.
pub record IsPool (w : World) (self : Pool) (p : Ptr) (qs out : List Ptr) : Type 0 where
  pub line : IsLine (link_at w.heap) self.ends p qs
  pub free : self.freeable ≡ length qs
  pub count : length qs + length out ≡ self.capacity
  pub bound : self.capacity < size_max
  pub distinct : Distinct out
  pub apart : Disjoint out (p ∷ qs)
  pub cells : (a : Ptr) → a ∈ out → (c : Cell) × Holds w.heap a c

-- A pool survives a change that spares the links of its free fragments and keeps the cells in use.
pub IsPool-frame :
    (w v : World) {self : Pool} {p : Ptr} {qs out : List Ptr}
    → IsPool w self p qs out
    → ((a : Ptr) → a ∈ p ∷ qs → link_at v.heap a ≡ link_at w.heap a)
    → ((a : Ptr) → a ∈ out → (c : Cell) × Holds v.heap a c)
    → IsPool v self p qs out
IsPool-frame w v {self} {p} {qs} is same cells = record {
  line = IsLine-frame (link_at w.heap) (link_at v.heap) self.ends p qs same is.line;
  free = is.free;
  count = is.count;
  bound = is.bound;
  distinct = is.distinct;
  apart = is.apart;
  cells = cells;
}

-- The fields that no operation but `create`, `clear` and `destroy` changes.
pub record SameConfig (self self' : Pool) : Type 0 where
  pub pool : self'.pool ≡ self.pool
  pub data_bytes : self'.data_bytes ≡ self.data_bytes
  pub capacity : self'.capacity ≡ self.capacity

-- The fragment `f` went from `out` to the end of the free ones; bytes are untouched, and cells
-- other than `f` and the last free fragment altogether.
pub record Put (w : World) (self : Pool) (p : Ptr) (qs out : List Ptr) (f : Ptr) (self' : Pool)
    (v : World) : Type 0 where
  pub is : IsPool v self' p (qs ++ f ∷ []) (erase f out)
  pub fewer : length v.spurious ≤ length w.spurious
  pub config : SameConfig self self'
  pub others : (a : Ptr) → a ≢ f → a ≢ last p qs → v.heap a ≡ w.heap a
  pub bytes : (a : Ptr) → bytes_at v.heap a ≡ bytes_at w.heap a
  pub blocks : v.blocks ≡ w.blocks
  pub errno : v.errno ≡ w.errno

abbrev wiped : World → Ptr → Cell → World
wiped w f c = record w { heap = write w.heap f (some (record c { next = node 0 null })) }

module _ {w : World} {self : Pool} {p : Ptr} {qs out : List Ptr} (is : IsPool w self p qs out)
    (f : Ptr) (mine : f ∈ out) {c : Cell} (at : Holds w.heap f c) where
  wiped-IsLine : IsLine (link_at (wiped w f c).heap) self.ends p qs
  wiped-IsLine =
      IsLine-frame (link_at w.heap) (link_at (wiped w f c).heap) self.ends p qs
        (λ a m. rw link_at-write (ground (arith, is.apart f, mem_ne f a (p ∷ qs)))) is.line

  erased_apart : Disjoint (erase f out) (p ∷ (qs ++ f ∷ []))
  erased_apart a m =
      ground (arith, has-erase f a out is.distinct, has-append a (p ∷ qs) (f ∷ []), is.apart a)

  erased_cells :
      (v : World)
      → ((a : Ptr) → a ≢ f → a ≢ last p qs → v.heap a ≡ w.heap a)
      → (a : Ptr) → a ∈ erase f out
      → (d : Cell) × Holds v.heap a d
  erased_cells v same a m =
      let there : a ∈ out = ground (arith, has-erase f a out is.distinct) in
      let (d, holds) = is.cells a there in
      let ne_f : a ≢ f = ground (arith, has-erase f a out is.distinct) in
      let ne_last : a ≢ last p qs =
        mem_ne a (last p qs) (p ∷ qs) (is.apart a there) (last-mem p qs) in
      (d, record { ne_null = holds.ne_null; cell = same a ne_f ne_last ∙ holds.cell })

  Appended-Put :
      (e : Ends) (v : World)
      → Appended self.ends (wiped w f c) p qs f e v
      → Put w self p qs out f (record self { ends = e; freeable = inc64 self.freeable }) v
  Appended-Put e v done = record {
    is = record {
      line = done.line;
      free =
          ground
            (arith, is.free, is.count, is.bound, length-append qs (f ∷ []), length-erase f out);
      count = omega (arith, is.count, length-append qs (f ∷ []), length-erase f out mine);
      bound = is.bound;
      distinct = Distinct-erase f out is.distinct;
      apart = erased_apart;
      cells = erased_cells v others;
    };
    config = record { pool = refl; data_bytes = refl; capacity = refl };
    others = others;
    bytes = λ a. done.bytes a ∙ rw bytes_at-write (ground (arith, bytes_at-Holds w.heap f c at));
    blocks = done.blocks;
    errno = done.errno;
    fewer = done.fewer;
  }
    where
      others : (a : Ptr) → a ≢ f → a ≢ last p qs → v.heap a ≡ w.heap a
      others a ne ne_last = done.others a ne_last ∙ write_other w.heap f _ a ne

  internal_mempool_put-Put : Returns (Put w self p qs out f) (internal_mempool_put self f w)
  unfolding internal_mempool_put
  internal_mempool_put-Put = rw (set_next-ok w at (node 0 null)) (
      Returns.bind
        (link_last-Appended {w = wiped w f c} wiped-IsLine at.ne_null (is.apart f mine)
          (rw link_at-write (ground arith)))
        λ e v done. returns (Appended-Put e v done))

-- A fragment in use can be put back, whatever compare-exchanges fail spuriously.
pub put_lem :
    {w : World} {self : Pool} {p : Ptr} {qs out : List Ptr} (f : Ptr)
    → IsPool w self p qs out
    → f ∈ out
    → Returns (Put w self p qs out f) (internal_mempool_put self f w)
put_lem f is mine = let (c, at) = is.cells f mine in internal_mempool_put-Put is f mine at

-- The first fragment `p` went out; the heap is as it was.
pub record Picked (w : World) (self : Pool) (p q : Ptr) (qs out : List Ptr) (r : Ptr × Pool)
    (v : World) : Type 0 where
  pub got : r.0 ≡ p
  pub is : IsPool v r.1 q qs (p ∷ out)
  pub config : SameConfig self r.1
  pub answers : OnlyAnswers w v

abbrev Any : Unit {0} → Type 0
Any _ = Unit {0}

module _ {w : World} {self : Pool} {p q : Ptr} {qs out : List Ptr}
    (is : IsPool w self p (q ∷ qs) out) where
  picked_cells :
      (v : World) → v.heap ≡ w.heap → (a : Ptr) → a ∈ p ∷ out → (c : Cell) × Holds v.heap a c
  picked_cells v same a m = elim (Bool-cases (a == p)) [
    | inl first ↦
        let (c, at, _) =
          Holds-of_link v.heap p q is.line.chain.0 (ap (λ h. link_at h p) same ∙ is.line.chain.1) in
        (c, subst (λ x. Holds v.heap x c) (ground arith) at)
    | inr other ↦
        let (c, at) = is.cells a (ground arith) in
        (c, record { ne_null = at.ne_null; cell = ap (λ h. h a) same ∙ at.cell })
  ]

  Taken-Picked :
      (e : Ends) (v : World)
      → Taken Any Any w q qs (e, tt) v
      → Picked w self p q qs out (p, record self { ends = e; freeable = dec64 self.freeable }) v
  Taken-Picked e v taken = record {
    got = refl;
    is = record {
      line = subst (λ h. IsLine (link_at h) e q qs) (sym taken.answers.heap) taken.line;
      free = ground (arith, is.free, is.count, is.bound);
      count = omega (arith, is.count);
      bound = is.bound;
      distinct = (ground (arith, is.apart p), is.distinct);
      apart = λ a m. ground (arith, is.apart a, is.line.chain);
      cells = picked_cells v taken.answers.heap;
    };
    config = record { pool = refl; data_bytes = refl; capacity = refl };
    answers = taken.answers;
  }

  pub pick_lem : Returns (Picked w self p q qs out) (internal_mempool_pick self w)
  unfolding internal_mempool_pick
  pick_lem =
      Returns.bind
        (unlink_first-Taken {P = Any} {Q = Any} enomem no_peek w self.ends tt is.line
          (λ b v same keep. returns (refl, tt, tt)) tt)
        λ (o, (e, b)) v (got, taken). rw (got, picked) (returns (Taken-Picked e v taken))

pub pick_empty :
    {w : World} {self : Pool} {p : Ptr} {out : List Ptr}
    → IsPool w self p [] out
    → internal_mempool_pick self w ≡ ok (null, self) (record w { errno = enomem })
unfolding internal_mempool_pick
pick_empty {w} {self} {p} is = rw (unlink_first-empty enomem no_peek w self.ends p tt is.line)
