-- ===== src/LockFree/Link.antt =====
-- The loop of `list_insert` links a node behind its predecessor, whatever compare-exchanges fail
-- spuriously.
use coop_tasks.Base.{
  ℕ, suc, zero, ◌<◌, ◌≤◌, ◌≡◌, ◌≢◌, refl, sym, ap, subst, ◌∙◌, true, false, Bool, some, List, [],
  ◌∷◌, arith, ◌==◌, length, inl, inr, Bool-cases, ◌∉◌, mem_ne,
}
use coop_tasks.Heap.{Ptr, Node, node, Cell, World, ok, write, cas_next, head_or, again, repeat}
use coop_tasks.Heap.Access.{
  Holds, load-ok, store-ok, cas_next-won, cas_next-lost, answered, write_here, write_other,
  length-tail_of, length-tail_of-lt,
}
use coop_tasks.Heap.Returns.{Returns, returns, Round, repeat_rule}
use coop_tasks.LockFree.Defs.{insert_once, help_result, back, back_once, search_again}
use coop_tasks.LockFree.Span.{
  Entry, ats, IsNode, IsNode-frame, Span, Span-IsNode, Span-frame, first, upto, from,
}
use coop_tasks.LockFree.Search.{Ends, load_node, search_from-ok}

-- A compare-exchange of a node's reference that expects no mark.
module _ (w : World) {a : Ptr} {k : ℕ} {next : Ptr} (is : IsNode w.heap a k next) (n : Node) where
  pub cas_node-lost :
      head_or w.spurious ≡ true → cas_next a (node 0 next) n w ≡ ok false (answered w)
  cas_node-lost h =
      subst (λ x. cas_next a x n w ≡ ok false (answered w)) is.is_next
        (cas_next-lost w is.holds n h)

  pub cas_node-won :
      head_or w.spurious ≡ false
      → cas_next a (node 0 next) n w
        ≡ ok true
            (record (answered w) { heap = write w.heap a (some (record is.cell { next = n })) })
  cas_node-won h =
      subst
        (λ x.
          cas_next a x n w
          ≡ ok true
              (record (answered w) { heap = write w.heap a (some (record is.cell { next = n })) }))
        is.is_next (cas_next-won w is.holds n h)

-- A node without a mark needs no help and no way back.
pub help_result-none :
    (w : World) (fuel : ℕ) {a : Ptr} {k : ℕ} {next : Ptr}
    → IsNode w.heap a k next
    → help_result fuel a w ≡ ok tt w
unfolding help_result
help_result-none w fuel is = rw (load_node w is, is.is_next)

pub back-here :
    (w : World) (fuel : ℕ) {a : Ptr} {k : ℕ} {next : Ptr}
    → IsNode w.heap a k next
    → back (suc fuel) a w ≡ ok a w
unfolding back repeat back_once
back-here w fuel is = rw (load_node w is, is.is_next)

-- What the loop leaves: `p` is between `prev` and `next`.
pub record Linked (u : World) (prev p : Ptr) (c d : Cell) (next : Ptr) (v : World) : Type 0 where
  pub at_prev : v.heap prev ≡ some (record c { next = node 0 p })
  pub at_p : v.heap p ≡ some (record d { next = node 0 next })
  pub others : (a : Ptr) → a ≢ p → a ≢ prev → v.heap a ≡ u.heap a
  pub blocks : v.blocks ≡ u.blocks
  pub errno : v.errno ≡ u.errno
  pub fewer : length v.spurious ≤ length u.spurious

-- What the loop keeps: only the link of `p` changes.
record Waiting (u : World) (p : Ptr) (d : Cell) (v : World) : Type 0 where
  link : Node
  at_p : v.heap p ≡ some (record d { next = link })
  others : (a : Ptr) → a ≢ p → v.heap a ≡ u.heap a
  blocks : v.blocks ≡ u.blocks
  errno : v.errno ≡ u.errno
  fewer : length v.spurious ≤ length u.spurious

module _ (u : World) (n : ℕ) (prev : Ptr) (k : ℕ) (r : List Entry) (t p : Ptr) (d : Cell) (key : ℕ)
    (span : Span u.heap n prev k r t) (at : Holds u.heap p d) (apart : p ∉ prev ∷ ats r)
    (ends : Ends u t key) (not_end : p ≢ t) (ne : k ≢ key) (up : upto key r ≡ [])
    (on : from key r ≡ r) where
  abbrev next : Ptr
  next = first r t

  abbrev prev_node : IsNode u.heap prev k next
  prev_node = Span-IsNode u.heap n prev k r t span

  Waiting-Span : {v : World} → Waiting u p d v → Span v.heap n prev k r t
  Waiting-Span {v} wait =
      Span-frame u.heap v.heap n prev k r t
        (λ b m. wait.others b (ground (arith, mem_ne p b (prev ∷ ats r)))) span

  Waiting-Ends : {v : World} → Waiting u p d v → Ends v t key
  Waiting-Ends wait = record {
    bound = ends.bound;
    next = ends.next;
    is = IsNode-frame (wait.others t (λ e. not_end (sym e))) ends.is;
    above = ends.above;
  }

  search_again-here :
      (v : World) (fuel : ℕ)
      → Waiting u p d v
      → length r < fuel
      → search_again fuel key prev v ≡ ok (again, (prev, next)) v
  unfolding search_again
  search_again-here v fuel wait lt =
      let node_ = Span-IsNode v.heap n prev k r t (Waiting-Span wait) in
      let other : (k == key) ≡ false = ground arith in
      rw (
        search_from-ok v n prev k r t key fuel (Waiting-Span wait) (Waiting-Ends wait) lt,
        up,
        on,
        load_node v node_,
        node_.is_key,
        other,
      )

  -- The world after the node's link is set.
  abbrev set_link : World → World
  set_link v = record v { heap = write v.heap p (some (record d { next = node 0 next })) }

  Waiting-set_link : {v : World} → Waiting u p d v → Waiting u p d (set_link v)
  Waiting-set_link {v} wait = record {
    link = node 0 next;
    at_p = ground arith;
    others = λ a ne. write_other v.heap p _ a ne ∙ wait.others a ne;
    blocks = wait.blocks;
    errno = wait.errno;
    fewer = wait.fewer;
  }

  Waiting-answered : {v : World} → Waiting u p d v → Waiting u p d (answered v)
  Waiting-answered {v} wait = record {
    link = wait.link;
    at_p = wait.at_p;
    others = wait.others;
    blocks = wait.blocks;
    errno = wait.errno;
    fewer = omega (arith, wait.fewer, length-tail_of v.spurious);
  }

  abbrev Loop : Ptr × Ptr → World → Type 0
  Loop s v = (s ≡ (prev, next)) × Waiting u p d v

  abbrev LinkPost : Bool × (Ptr × Ptr) → World → Type 0
  LinkPost (linked, s) v = (linked ≡ true) × Linked u prev p prev_node.cell d next v

  insert_once-Round :
      (fuel : ℕ) (v : World)
      → length r < suc fuel
      → Waiting u p d v
      → Returns
          (Round Loop (λ s v. length v.spurious) LinkPost (length v.spurious))
          (insert_once (suc fuel) key p (prev, next) v)
  unfolding insert_once Waiting-set_link
  insert_once-Round fuel v lt wait =
      let node_ = Span-IsNode v.heap n prev k r t (Waiting-Span wait) in
      let at_v : Holds v.heap p (record d { next = wait.link }) = record {
        ne_null = at.ne_null;
        cell = wait.at_p;
      } in
      let w' = set_link v in
      let wait' = Waiting-set_link wait in
      let node' = Span-IsNode w'.heap n prev k r t (Waiting-Span wait') in
      let apart_prev : p ≢ prev = ground arith in
      let same : some node'.cell ≡ some prev_node.cell =
        sym node'.holds.cell ∙ wait'.others prev (λ e. apart_prev (sym e)) ∙ prev_node.holds.cell in
      let same_cell : node'.cell ≡ prev_node.cell = cc in
      rw
        (
          load_node v node_,
          node_.is_next,
          load-ok v at_v,
          store-ok v at_v (record d { next = node 0 next }),
        )
        (elim (Bool-cases (head_or v.spurious)) [
          | inl lost ↦
              let wait'' = Waiting-answered wait' in
              let node'' = Span-IsNode (answered w').heap n prev k r t (Waiting-Span wait'') in
              rw
                (
                  cas_node-lost w' node' (node 0 p) lost,
                  help_result-none (answered w') (suc fuel) node'',
                  back-here (answered w') fuel node'',
                  search_again-here (answered w') (suc fuel) wait'' lt,
                )
                (returns ((refl, wait''), omega (arith, length-tail_of-lt v.spurious lost)))
          | inr won ↦ rw (cas_node-won w' node' (node 0 p) won) (
              returns (
                refl,
                record {
                  at_prev =
                      write_here w'.heap prev _
                      ∙ ap (λ (x : Cell). some (record x { next = node 0 p })) same_cell;
                  at_p = write_other w'.heap prev _ p apart_prev ∙ wait'.at_p;
                  others =
                      λ a ne_p ne_prev. write_other w'.heap prev _ a ne_prev ∙ wait'.others a ne_p;
                  blocks = wait.blocks;
                  errno = wait.errno;
                  fewer = omega (arith, wait.fewer, length-tail_of v.spurious);
                },
              ))
        ])

  pub link-Linked :
      (fuel : ℕ)
      → length r < fuel
      → length u.spurious < fuel
      → Returns LinkPost (repeat (insert_once fuel key p) fuel (prev, next) u)
  link-Linked zero lt less = elim lt [ ]
  link-Linked (suc fuel) lt less =
      repeat_rule Loop (λ s v. length v.spurious) LinkPost (insert_once (suc fuel) key p)
        (λ s v (is, wait).
          subst
            (λ x.
              Returns (Round Loop (λ s' v'. length v'.spurious) LinkPost (length v.spurious))
                (insert_once (suc fuel) key p x v))
            (sym is) (insert_once-Round fuel v lt wait))
        (suc fuel) (prev, next) u less
        (
          refl,
          record {
            link = d.next;
            at_p = at.cell;
            others = λ a ne. refl;
            blocks = refl;
            errno = refl;
            fewer = omega arith;
          },
        )
