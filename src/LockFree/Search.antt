-- ===== src/LockFree/Search.antt =====
-- `search_from` on a span: it stops at the last node up to the key, and changes nothing.
use coop_tasks.Base.{
  ℕ, zero, suc, ◌<◌, ◌≡◌, false, List, [], ◌∷◌, arith, leb, length, inl, inr, Bool-cases,
}
use coop_tasks.Heap.{Ptr, World, ok, load, repeat}
use coop_tasks.Heap.Access.{load-ok}
use coop_tasks.LockFree.Defs.{pass_once, search_once, search_from}
use coop_tasks.LockFree.Span.{Entry, IsNode, Span, Span-IsNode, first, at_end, upto, from}

-- The key behind a span is above the one that is looked for.
pub record Ends (w : World) (t : Ptr) (key : ℕ) : Type 0 where
  pub bound : ℕ
  pub next : Ptr
  pub is : IsNode w.heap t bound next
  pub above : key < bound

-- Reading a node.
pub load_node :
    (w : World) {a : Ptr} {k : ℕ} {next : Ptr} (is : IsNode w.heap a k next)
    → load a w ≡ ok is.cell w
load_node w is = load-ok w is.holds

pass_lem :
    (w : World) {a : Ptr} {k : ℕ} {next : Ptr} (curr : Ptr) (fuel : ℕ)
    → IsNode w.heap a k next
    → repeat (pass_once curr) (suc fuel) a w ≡ ok (tt, a) w
unfolding repeat pass_once
pass_lem w curr fuel is = rw (load_node w is, is.is_next)

walk :
    (w : World) (n : ℕ) (a : Ptr) (k : ℕ) (es : List Entry) (t : Ptr) (key fuel rounds : ℕ)
    → Span w.heap n a k es t
    → Ends w t key
    → length es < rounds
    → repeat (search_once (suc fuel) key) rounds (a, first es t) w
      ≡ ok (tt, (at_end a (upto key es), first (from key es) t)) w
unfolding repeat search_once
walk w n a k es t key fuel zero s ends lt = elim lt [ ]
walk w n a k [] t key fuel (suc rounds) s ends lt =
    let past : leb ends.bound key ≡ false = ground (arith, ends.above) in
    rw (load_node w ends.is, ends.is.is_key, past)
walk w n a k (e ∷ es) t key fuel (suc rounds) (node_, up, val, s) ends lt =
    let is = Span-IsNode w.heap n e.at e.key es t s in
    elim (Bool-cases (leb e.key key)) [
      | inl more ↦
          rw
            (
              load_node w is,
              is.is_key,
              more,
              pass_lem w a fuel is,
              load_node w is,
              is.is_key,
              more,
              load_node w is,
              is.is_next,
            )
            (walk w n e.at e.key es t key fuel rounds s ends (omega arith))
      | inr past ↦ rw (load_node w is, is.is_key, past)
    ]

-- From a node at which a span of entries with rising keys starts, with a node of a larger key than
-- the one looked for behind the span, and fuel above the number of entries: `search_from` ends,
-- without a fault and without a change, at the last node that is not above the key and the node
-- behind it.
pub search_from-ok :
    (w : World) (n : ℕ) (a : Ptr) (k : ℕ) (es : List Entry) (t : Ptr) (key fuel : ℕ)
    → Span w.heap n a k es t
    → Ends w t key
    → length es < fuel
    → search_from fuel key a w ≡ ok (at_end a (upto key es), first (from key es) t) w
unfolding search_from
search_from-ok w n a k es t key zero s ends lt = elim lt [ ]
search_from-ok w n a k es t key (suc fuel) s ends lt =
    let is = Span-IsNode w.heap n a k es t s in
    rw (load_node w is, is.is_next, walk w n a k es t key fuel (suc fuel) s ends lt)
