-- ===== src/LockFree/Unlink.antt =====
-- `try_flag` and `help_flagged` take a node out, where no compare-exchange fails spuriously.
use coop_tasks.Base.{ℕ, suc, ◌≡◌, ◌≢◌, refl, sym, ap, subst, ◌∙◌, true, some, [], arith, ◌==◌}
use coop_tasks.Heap.{Ptr, Node, node, Cell, World, ok, write, head_or, tail_of, cas_next, repeat}
use coop_tasks.Heap.Access.{
  Holds, load-ok, store-ok, cas_next-won, answered, write_here, write_other,
}
use coop_tasks.LockFree.Defs.{try_flag, flag_once, help_flagged, try_mark, help_marked}

-- What is left: `prev` points behind `q`, which is marked and points back.
pub record Unlinked (w : World) (prev q : Ptr) (c d : Cell) (next : Ptr) (v : World) : Type 0 where
  pub at_prev : v.heap prev ≡ some (record c { next = node 0 next })
  pub at_q : v.heap q ≡ some (record d { next = node 1 next; backlink = prev })
  pub others : (a : Ptr) → a ≢ q → a ≢ prev → v.heap a ≡ w.heap a
  pub blocks : v.blocks ≡ w.blocks
  pub errno : v.errno ≡ w.errno
  pub quiet : v.spurious ≡ []

cas_next-at :
    (w : World) {a : Ptr} {c : Cell} (expected n : Node)
    → Holds w.heap a c
    → c.next ≡ expected
    → w.spurious ≡ []
    → cas_next a expected n w
      ≡ ok true (record (answered w) { heap = write w.heap a (some (record c { next = n })) })
cas_next-at w {a} {c} expected n at is quiet =
    subst
      (λ x.
        cas_next a x n w
        ≡ ok true (record (answered w) { heap = write w.heap a (some (record c { next = n })) }))
      is (cas_next-won w at n (ap head_or quiet))

module _ (w : World) (prev q next : Ptr) (c d : Cell)
    (at_prev : Holds w.heap prev (record c { next = node 0 q }))
    (at_q : Holds w.heap q (record d { next = node 0 next })) (ne : q ≢ prev)
    (quiet : w.spurious ≡ []) where
  abbrev pub flagged_cell : Cell
  flagged_cell = record c { next = node 2 q }

  abbrev pub back_cell : Cell
  back_cell = record d { next = node 0 next; backlink = prev }

  abbrev pub marked_cell : Cell
  marked_cell = record back_cell { next = node 1 next }

  abbrev pub w1 : World
  w1 = record (answered w) { heap = write w.heap prev (some flagged_cell) }

  abbrev pub w2 : World
  w2 = record w1 { heap = write w1.heap q (some back_cell) }

  abbrev pub w3 : World
  w3 = record (answered w2) { heap = write w2.heap q (some marked_cell) }

  abbrev pub w4 : World
  w4 = record (answered w3) { heap = write w3.heap prev (some (record c { next = node 0 next })) }

  pub try_flag-true : (fuel : ℕ) → try_flag (suc fuel) prev q w ≡ ok (true, prev) w1
  unfolding try_flag repeat flag_once
  try_flag-true fuel =
      let same : (q == q) ≡ true = ground arith in
      rw (load-ok w at_prev, same, cas_next-at w (node 0 q) (node 2 q) at_prev refl quiet)

  q1 : Holds w1.heap q (record d { next = node 0 next })
  q1 = record { ne_null = at_q.ne_null; cell = write_other w.heap prev _ q ne ∙ at_q.cell }

  q2 : Holds w2.heap q back_cell
  q2 = record { ne_null = at_q.ne_null; cell = write_here w1.heap q _ }

  q3 : Holds w3.heap q marked_cell
  q3 = record { ne_null = at_q.ne_null; cell = write_here w2.heap q _ }

  prev3 : Holds w3.heap prev flagged_cell
  prev3 = record {
    ne_null = at_prev.ne_null;
    cell =
        write_other w2.heap q _ prev (λ e. ne (sym e))
        ∙ write_other w1.heap q _ prev (λ e. ne (sym e))
        ∙ write_here w.heap prev _;
  }

  try_mark-marked : (fuel : ℕ) → try_mark (suc fuel) q w2 ≡ ok tt w3
  unfolding try_mark
  try_mark-marked fuel = rw (
    load-ok w2 q2,
    cas_next-at w2 (node 0 next) (node 1 next) q2 refl (ap tail_of quiet),
    load-ok w3 q3,
    load-ok w3 q3,
  )

  help_marked-unlinked : help_marked prev q w3 ≡ ok tt w4
  unfolding help_marked
  help_marked-unlinked = rw (
    load-ok w3 q3,
    cas_next-at w3 (node 2 q) (node 0 next) prev3 refl (ap (λ x. tail_of (tail_of x)) quiet),
  )

  pub help_flagged-unlinked : (fuel : ℕ) → help_flagged (suc fuel) prev q w1 ≡ ok tt w4
  unfolding help_flagged
  help_flagged-unlinked fuel = rw (
    load-ok w1 q1,
    store-ok w1 q1 back_cell,
    load-ok w2 q2,
    try_mark-marked fuel,
    help_marked-unlinked,
  )

  pub w4-Unlinked : Unlinked w prev q c d next w4
  w4-Unlinked = record {
    at_prev = write_here w3.heap prev _;
    at_q = write_other w3.heap prev _ q ne ∙ write_here w2.heap q _;
    others = λ a ne_q ne_prev.
        write_other w3.heap prev _ a ne_prev
        ∙ write_other w2.heap q _ a ne_q
        ∙ write_other w1.heap q _ a ne_q
        ∙ write_other w.heap prev _ a ne_prev;
    blocks = refl;
    errno = refl;
    quiet = ap (λ x. tail_of (tail_of (tail_of x))) quiet;
  }
