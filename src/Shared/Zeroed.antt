-- ===== src/Shared/Zeroed.antt =====
-- What a write of NULL into the first word of a fragment that was handed out breaks in a shared pool.
use coop_tasks.Base.{◌≡◌, ◌≢◌, ◌∈◌, refl, arith}
use coop_tasks.Heap.{Ptr, null, Node, node}
use coop_tasks.Shared.Machine.{
  System, Move, make, load_tail, load_next, at_end, link, move_tail, count_put, load_head,
  load_tail_too, load_head_next, not_empty, unlink, count_pick, move, free, alloc, use_fragment,
  Reach, at_first, then_step,
}

-- Whatever is written.
abbrev pub AnyWrite : Node → Type 0
AnyWrite n = Unit {0}

-- In a pool with the dummy `d`, for any two other fragments, and if a thread may write anything into
-- what it was handed: there is a state in which a thread was handed `d` and has zeroed its first
-- word, and in which the next step of another thread's `put` of `f` writes `f` into `d`; the pool
-- then ends at the other fragment, and does not hold `f`.
pub zeroed-overwritten :
    (d f g : Ptr)
    → f ≢ null
    → g ≢ null
    → d ≢ f
    → d ≢ g
    → f ≢ g
    → (s : System) × (t : System) × Reach AnyWrite d s
      × Move 0 s t
      × (d ∈ s.handed)
      × (s.next d ≡ node 0 null)
      × ((t.next d).frag ≡ f)
      × (t.head.frag ≡ g)
      × ((t.next g).frag ≡ null)
zeroed-overwritten d f g nf ng df dg fg =
    let r1 : Reach AnyWrite d _ = then_step at_first (free 0 f refl nf (ground arith)) in
    let r2 : Reach AnyWrite d _ = then_step r1 (move 0 (make f refl)) in
    let r3 : Reach AnyWrite d _ = then_step r2 (move 0 (load_tail f refl)) in
    let r4 : Reach AnyWrite d _ = then_step r3 (move 0 (load_next f _ refl)) in
    let r5 : Reach AnyWrite d _ = then_step r4 (move 0 (at_end f _ _ refl refl (ground arith))) in
    let r6 : Reach AnyWrite d _ = then_step r5 (free 1 g refl ng (ground arith)) in
    let r7 : Reach AnyWrite d _ = then_step r6 (move 1 (make g refl)) in
    let r8 : Reach AnyWrite d _ = then_step r7 (move 1 (load_tail g refl)) in
    let r9 : Reach AnyWrite d _ = then_step r8 (move 1 (load_next g _ refl)) in
    let r10 : Reach AnyWrite d _ = then_step r9 (move 1 (at_end g _ _ refl refl (ground arith))) in
    let r11 : Reach AnyWrite d _ = then_step r10 (move 1 (link g _ _ refl refl)) in
    let r12 : Reach AnyWrite d _ = then_step r11 (move 1 (move_tail g _ refl refl)) in
    let r13 : Reach AnyWrite d _ = then_step r12 (move 1 (count_put g refl)) in
    let r14 : Reach AnyWrite d _ = then_step r13 (alloc 1 refl) in
    let r15 : Reach AnyWrite d _ = then_step r14 (move 1 (load_head refl)) in
    let r16 : Reach AnyWrite d _ = then_step r15 (move 1 (load_tail_too _ refl)) in
    let r17 : Reach AnyWrite d _ = then_step r16 (move 1 (load_head_next _ _ refl)) in
    let r18 : Reach AnyWrite d _ = then_step r17 (move 1 (not_empty _ _ _ refl refl dg)) in
    let r19 : Reach AnyWrite d _ = then_step r18 (move 1 (unlink _ _ _ refl refl)) in
    let r20 : Reach AnyWrite d _ = then_step r19 (move 1 (count_pick _ refl)) in
    let r21 : Reach AnyWrite d _ = then_step r20 (use_fragment d (node 0 null) (ground arith) tt) in
    (
      _,
      _,
      r21,
      link f _ _ refl (ground arith),
      ground arith,
      ground arith,
      ground arith,
      ground arith,
      ground arith,
    )
