-- ===== src/Shared/Runs.antt =====
-- A shared pool in every interleaving of its threads: first in, first out, and what was handed out is
-- let alone; and what a write of NULL breaks.
use coop_tasks.Base.{
  ℕ, ◌≡◌, ◌≢◌, ◌∈◌, ◌∉◌, refl, sym, ap, subst, ◌∙◌, List, [], ◌∷◌, ◌++◌, arith, has-append, mem_ne,
  Distinct, inl, inr,
}
use coop_tasks.Heap.{Ptr, null, Node}
use coop_tasks.Shared.Machine.{
  Pc, idle, putting, put_loop, put_next, put_test, put_link, put_help, put_move, put_count,
  pick_loop, pick_tail, pick_next, pick_test, pick_help, pick_unlink, System, set_pc, Move, make,
  load_tail, load_next, tail_moved, at_end, behind, link, link_fails, help_put, help_put_fails,
  move_tail, move_tail_fails, count_put, load_head, load_tail_too, load_head_next, head_moved,
  empty, tail_behind, not_empty, help_pick, help_pick_fails, unlink, unlink_fails, count_pick, Step,
  move, free, alloc, use_fragment, fresh_pool, Reach, at_first, then_step,
}
use coop_tasks.Shared.Inv.{Line, Local, brings, Inv}
use coop_tasks.Shared.Changes.{in_linked, not_handed, stays, tail_moves}
use coop_tasks.Shared.Kept.{made, used, brought}
use coop_tasks.Shared.Linked.{linked_to, unlinked}

module _ {s : System} (inv : Inv s) where
  -- What the thread `i` may rely on.
  at_pc : (i : ℕ) (p : Pc) → s.pc i ≡ p → Local s p
  at_pc i p at = subst (Local s) at (inv.local i)

  -- The tail is in the pool.
  tail_linked : s.tail.frag ∈ s.linked
  tail_linked = ground (arith, in_linked inv s.tail.frag, inv.tail_in)

  head_linked : s.head.frag ∈ s.linked
  head_linked = ground (arith, in_linked inv s.head.frag)

  moved :
      (i : ℕ) (p q : Pc)
      → s.pc i ≡ p
      → Local s q
      → brings q ≡ brings p
      → Inv (record s { pc = set_pc s.pc i q })
  moved i p q at own same =
      stays inv i q s.freeable s.returned own (inr (same ∙ sym (ap brings at))) inv.done

  -- A step to where no fragment is brought.
  left_off :
      (i : ℕ) (q : Pc) → Local s q → brings q ≡ null → Inv (record s { pc = set_pc s.pc i q })
  left_off i q own none_ = stays inv i q s.freeable s.returned own (inl none_) inv.done

  -- A compare-exchange that finds the tail as it was read.
  link_of :
      (t : Node) (x : Ptr)
      → s.tail ≡ t
      → (t.frag ∉ s.handed → (s.next t.frag).frag ≡ x)
      → (s.next s.tail.frag).frag ≡ x
  link_of t x is read =
      let same : s.tail.frag ≡ t.frag = ap (λ n. n.frag) is in
      let out = subst (λ a. a ∉ s.handed) same (not_handed inv s.tail.frag inv.tail_in) in
      ap (λ a. (s.next a).frag) same ∙ read out

  more :
      (r : List Ptr)
      → Line s.next s.head.frag r
      → s.tail.frag ∈ s.head.frag ∷ r
      → s.tail.frag ≢ s.head.frag
      → null ∉ r
      → (s.next s.head.frag).frag ≢ null
  more [] l m ne no_null = absurd (ne (ground arith))
  more (b ∷ r) l m ne no_null = λ e. ground (arith, l.0)

  read_next : (h t : Node) → Local s (pick_next h t) → Local s (pick_test h t (s.next h.frag))
  read_next h t (m, w, a) = (
    m,
    w,
    a,
    (λ out ne. refl),
    λ here ne z.
        more inv.rest inv.line inv.tail_in (λ e. a here ne (e ∙ here))
          (ground (arith, in_linked inv null, inv.no_null)) (ap (λ x. (s.next x).frag) here ∙ z),
  )

pub Move-Inv : {s : System} (i : ℕ) {t : System} → Move i s t → Inv s → Inv t
Move-Inv i (make f at) inv = made inv i f at
Move-Inv {s} i (load_tail f at) inv =
    let (o, z) = at_pc inv i (put_loop f) at in
    moved inv i (put_loop f) (put_next f s.tail) at (o, z, tail_linked inv) refl
Move-Inv {s} i (load_next f t at) inv =
    let (o, z, m) = at_pc inv i (put_next f t) at in
    moved inv i (put_next f t) (put_test f t (s.next t.frag)) at (o, z, m, λ out ne. refl) refl
Move-Inv i (tail_moved f t n at other) inv =
    let (o, z, m, r) = at_pc inv i (put_test f t n) at in
    moved inv i (put_test f t n) (put_loop f) at (o, z) refl
Move-Inv i (at_end f t n at is none_) inv =
    let (o, z, m, r) = at_pc inv i (put_test f t n) at in
    moved inv i (put_test f t n) (put_link f t n) at (o, z, m, none_) refl
Move-Inv i (behind f t n at is some_) inv =
    let (o, z, m, r) = at_pc inv i (put_test f t n) at in
    moved inv i (put_test f t n) (put_help f t n) at (o, z, m, r, some_) refl
Move-Inv i (link f t n at is) inv = linked_to inv i f t n _ at is
Move-Inv i (link_fails f t n at) inv =
    let (o, z, m, r) = at_pc inv i (put_link f t n) at in
    moved inv i (put_link f t n) (put_loop f) at (o, z) refl
Move-Inv i (help_put f t n at is) inv =
    let (o, z, m, r, ne) = at_pc inv i (put_help f t n) at in
    tail_moves inv i (put_loop f) _ n.frag (link_of inv t n.frag is (λ out. r out ne)) ne (o, z)
      (inr (sym (ap brings at)))
Move-Inv i (help_put_fails f t n at) inv =
    let (o, z, m, r, ne) = at_pc inv i (put_help f t n) at in
    moved inv i (put_help f t n) (put_loop f) at (o, z) refl
Move-Inv i (move_tail f t at is) inv =
    let (ne, f_in, m, r) = at_pc inv i (put_move f t) at in
    tail_moves inv i (put_count f) _ f (link_of inv t f is r) ne f_in (inl refl)
Move-Inv i (move_tail_fails f t at) inv =
    left_off inv i (put_count f) ((at_pc inv i (put_move f t) at).1) refl
Move-Inv {s} i (count_put f at) inv =
    stays inv i idle _ (s.returned ++ f ∷ []) tt (inl refl) (λ a m.
      ground (arith, has-append a s.returned (f ∷ []), inv.done a, at_pc inv i (put_count f) at))
Move-Inv {s} i (load_head at) inv =
    left_off inv i (pick_tail s.head) (head_linked inv, λ out. refl) refl
Move-Inv {s} i (load_tail_too h at) inv =
    let (m, w) = at_pc inv i (pick_tail h) at in
    left_off inv i (pick_next h s.tail) (m, w, λ here ne. ne) refl
Move-Inv {s} i (load_head_next h t at) inv =
    left_off inv i (pick_test h t (s.next h.frag))
      (read_next inv h t (at_pc inv i (pick_next h t) at)) refl
Move-Inv i (head_moved h t n at other) inv = left_off inv i pick_loop tt refl
Move-Inv i (empty h t n at is same none_) inv = left_off inv i idle tt refl
Move-Inv i (tail_behind h t n at is same some_) inv =
    let (m, w, a, r, ne) = at_pc inv i (pick_test h t n) at in
    left_off inv i (pick_help h t n) (m, sym same, some_, r) refl
Move-Inv i (not_empty h t n at is other) inv =
    let (m, w, a, r, ne) = at_pc inv i (pick_test h t n) at in
    let t_ne : t.frag ≢ h.frag = λ e. other (sym e) in
    left_off inv i (pick_unlink h t n) (m, w, t_ne, a, r, λ here. ne here t_ne) refl
Move-Inv {s} i (help_pick h t n at is) inv =
    let (m, same, ne, r) = at_pc inv i (pick_help h t n) at in
    tail_moves inv i pick_loop _ n.frag
      (link_of inv t n.frag is
        (λ out. ap (λ a. (s.next a).frag) same ∙ r (subst (λ a. a ∉ s.handed) same out) ne))
      ne tt (inl refl)
Move-Inv i (help_pick_fails h t n at) inv = left_off inv i pick_loop tt refl
Move-Inv i (unlink h t n at is) inv = unlinked inv i h t n _ at is
Move-Inv i (unlink_fails h t n at) inv = left_off inv i pick_loop tt refl
Move-Inv {s} i (count_pick f at) inv = stays inv i idle _ s.returned tt (inl refl) inv.done

-- Only what is not NULL is written into fragments that were handed out.
abbrev pub KeepsLink : Node → Type 0
KeepsLink n = n.frag ≢ null

Step-Inv : {s t : System} → Step KeepsLink s t → Inv s → Inv t
Step-Inv (move i m) inv = Move-Inv i m inv
Step-Inv (free i f at ne new) inv = brought inv i f at ne new
Step-Inv (alloc i at) inv = left_off inv i pick_loop tt refl
Step-Inv (use_fragment f n m ne) inv = used inv f n m ne

start-Inv : (d : Ptr) → d ≢ null → Inv (fresh_pool d)
start-Inv d ne = record {
  rest = [];
  fifo = refl;
  line = refl;
  tail_in = ground arith;
  distinct = (refl, tt);
  no_null = ground arith;
  linked_given = λ a m. m;
  out = λ a m. ground arith;
  local = λ i. tt;
  apart = λ i j ne' some_ e. some_ refl;
  done = λ a m. ground arith;
}

pub Reach-Inv : {d : Ptr} → d ≢ null → {s : System} → Reach KeepsLink d s → Inv s
Reach-Inv {d} ne at_first = start-Inv d ne
Reach-Inv ne (then_step r st) = Step-Inv st (Reach-Inv ne r)

-- In every state of a pool that started with the dummy `d`, which is not NULL, if each fragment is
-- given to `mempool_free` at most once, none is NULL or the dummy, and no thread writes NULL into
-- the first word of a fragment that was handed out: however the threads' accesses interleave and
-- whatever compare-exchanges fail, no fragment was linked twice, every `put` that has returned has
-- linked its fragment, and the linked fragments are, in order, those that were handed out, the
-- dummy at the head and those behind it, which stand in that order along the links, down to NULL.
pub linked-handed :
    {d : Ptr} {s : System}
    → d ≢ null
    → Reach KeepsLink d s
    → Distinct s.linked
      × ((a : Ptr) → a ∈ s.returned → a ∈ s.linked)
      × ((rest : List Ptr) × (s.linked ≡ s.handed ++ s.head.frag ∷ rest)
          × Line s.next s.head.frag rest)
linked-handed ne r =
    let inv = Reach-Inv ne r in (inv.distinct, inv.done, (inv.rest, inv.fifo, inv.line))

Inv-handed :
    {s : System}
    → Inv s
    → (i : ℕ) {t : System} → Move i s t
    → (a : Ptr) → a ∈ s.handed
    → t.next a ≡ s.next a
Inv-handed {s} inv i (make f at) a there =
    let out = (at_pc inv i (putting f) at).2 in
    let other : a ≢ f = λ e. mem_ne f a s.linked out (ground (arith, in_linked inv a)) (sym e) in
    ground arith
Inv-handed {s} inv i (link f t n at is) a there =
    let (o, z, m, none_) = at_pc inv i (put_link f t n) at in
    let other : a ≢ t.frag =
      λ e. inv.out a there (ap (λ b. (s.next b).frag) e ∙ ap (λ x. x.frag) is ∙ none_) in
    ground arith
Inv-handed inv i _ a there = refl

-- In every state of a pool that started with the dummy `d`, which is not NULL, if each fragment is
-- given to `mempool_free` at most once, none is NULL or the dummy, and no thread writes NULL into
-- the first word of a fragment that was handed out: no step of any thread in `internal_mempool_put` or `internal_mempool_pick`
-- changes the first word of a fragment that was handed out.
pub Move-handed :
    {d : Ptr} {s : System}
    → d ≢ null
    → Reach KeepsLink d s
    → (i : ℕ) {t : System} → Move i s t
    → (a : Ptr) → a ∈ s.handed
    → t.next a ≡ s.next a
Move-handed ne r i m a there = Inv-handed (Reach-Inv ne r) i m a there
