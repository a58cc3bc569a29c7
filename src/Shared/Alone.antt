-- ===== src/Shared/Alone.antt =====
-- A thread that runs on its own ends its call of the pool, wherever it stands and wherever other
-- threads stand.
use coop_tasks.Base.{◌∈◌, ℕ, ◌≡◌, ◌≢◌, ◌∉◌, refl, ◌==◌, arith, inl, inr, Bool-cases}
use coop_tasks.Heap.{Ptr, null, Node, equals}
use coop_tasks.Shared.Machine.{
  Pc, idle, putting, put_loop, put_next, put_test, put_link, put_help, put_move, put_count,
  pick_loop, pick_tail, pick_next, pick_test, pick_help, pick_unlink, pick_count, System, Reach,
}
use coop_tasks.Shared.Inv.{brings, Inv}
use coop_tasks.Shared.Changes.{in_linked}
use coop_tasks.Shared.Runs.{KeepsLink, Reach-Inv, Move-Inv}
use coop_tasks.Shared.Solo.{act, run_alone, act-Move}
use coop_tasks.Shared.Ends.{
  Ends, ended, ends-step, count_put_ends, move_ends, put_ends, count_pick_ends, pick_ends,
  Line-from,
}
use coop_tasks.Shared.Carried.{run_alone-linked}

module _ (i : ℕ) {s : System} (inv : Inv s) where
  no_null_behind : null ∉ inv.rest
  no_null_behind = ground (arith, in_linked inv null, inv.no_null)

  loop_ends_put : (f : Ptr) → s.pc i ≡ put_loop f → Ends i s
  loop_ends_put f at =
      let (ys, l, nn) =
        Line-from s.next s.head.frag inv.rest s.tail.frag inv.line inv.tail_in no_null_behind in
      put_ends ys f i s l nn at

  loop_ends_pick : s.pc i ≡ pick_loop → Ends i s
  loop_ends_pick at =
      let (ys, l, nn) =
        Line-from s.next s.head.frag inv.rest s.tail.frag inv.line inv.tail_in no_null_behind in
      pick_ends ys i s l nn at

-- A step of the thread, behind which the invariant holds too.
step_ends :
    (i : ℕ) (s : System) (p : Pc)
    → Inv s
    → s.pc i ≡ p
    → p ≢ idle
    → (Inv (act i p s) → Ends i (act i p s))
    → Ends i s
step_ends i s p inv at ne rest = ends-step i s p at (rest (Move-Inv i (act-Move i s p at ne) inv))

help_put_ends :
    (f : Ptr) (t n : Node) (i : ℕ) (s : System) → Inv s → s.pc i ≡ put_help f t n → Ends i s
unfolding act
help_put_ends f t n i s inv at = step_ends i s (put_help f t n) inv at (ground arith) (λ inv'.
    loop_ends_put i inv' f (elim (Bool-cases (equals s.tail t)) [
      | inl same ↦ rw same (ground arith)
      | inr other ↦ rw other (ground arith)
    ]))

link_ends : (f : Ptr) (t n : Node) (i : ℕ) (s : System) → Inv s → s.pc i ≡ put_link f t n → Ends i s
unfolding act
link_ends f t n i s inv at =
    step_ends i s (put_link f t n) inv at (ground arith)
      (elim (Bool-cases (equals (s.next t.frag) n)) [
        | inl same ↦ rw same (λ inv'. move_ends f t i _ (ground arith))
        | inr other ↦ rw other (λ inv'. loop_ends_put i inv' f (ground arith))
      ])

test_put_ends :
    (f : Ptr) (t n : Node) (i : ℕ) (s : System) → Inv s → s.pc i ≡ put_test f t n → Ends i s
unfolding act
test_put_ends f t n i s inv at =
    step_ends i s (put_test f t n) inv at (ground arith) (elim (Bool-cases (equals s.tail t)) [
      | inl same ↦ elim (Bool-cases (n.frag == null)) [
        | inl last ↦ rw (same, last) (λ inv'. link_ends f t n i _ inv' (ground arith))
        | inr more_ ↦ rw (same, more_) (λ inv'. help_put_ends f t n i _ inv' (ground arith))
      ]
      | inr other ↦ rw other (λ inv'. loop_ends_put i inv' f (ground arith))
    ])

help_pick_ends : (h t n : Node) (i : ℕ) (s : System) → Inv s → s.pc i ≡ pick_help h t n → Ends i s
unfolding act
help_pick_ends h t n i s inv at = step_ends i s (pick_help h t n) inv at (ground arith) (λ inv'.
    loop_ends_pick i inv' (elim (Bool-cases (equals s.tail t)) [
      | inl same ↦ rw same (ground arith)
      | inr other ↦ rw other (ground arith)
    ]))

at_unlink_ends : (h t n : Node) (i : ℕ) (s : System) → Inv s → s.pc i ≡ pick_unlink h t n → Ends i s
unfolding act
at_unlink_ends h t n i s inv at =
    step_ends i s (pick_unlink h t n) inv at (ground arith) (elim (Bool-cases (equals s.head h)) [
      | inl same ↦ rw same (λ inv'. count_pick_ends h.frag i _ (ground arith))
      | inr other ↦ rw other (λ inv'. loop_ends_pick i inv' (ground arith))
    ])

test_pick_ends : (h t n : Node) (i : ℕ) (s : System) → Inv s → s.pc i ≡ pick_test h t n → Ends i s
unfolding act
test_pick_ends h t n i s inv at =
    step_ends i s (pick_test h t n) inv at (ground arith) (elim (Bool-cases (equals s.head h)) [
      | inl same ↦ elim (Bool-cases (h.frag == t.frag)) [
        | inl here ↦ elim (Bool-cases (n.frag == null)) [
          | inl last ↦ rw (same, here, last) (λ inv'. ended i _ (ground arith))
          | inr more_ ↦
              rw (same, here, more_) (λ inv'. help_pick_ends h t n i _ inv' (ground arith))
        ]
        | inr there ↦ rw (same, there) (λ inv'. at_unlink_ends h t n i _ inv' (ground arith))
      ]
      | inr other ↦ rw other (λ inv'. loop_ends_pick i inv' (ground arith))
    ])

next_pick_ends : (h t : Node) (i : ℕ) (s : System) → Inv s → s.pc i ≡ pick_next h t → Ends i s
unfolding act
next_pick_ends h t i s inv at =
    step_ends i s (pick_next h t) inv at (ground arith)
      (λ inv'. test_pick_ends h t (s.next h.frag) i _ inv' (ground arith))

-- From wherever it stands.
ends_at : (i : ℕ) (s : System) (p : Pc) → Inv s → s.pc i ≡ p → Ends i s
unfolding act
ends_at i s idle inv at = ended i s at
ends_at i s (putting f) inv at =
    step_ends i s (putting f) inv at (ground arith) (λ inv'. loop_ends_put i inv' f (ground arith))
ends_at i s (put_loop f) inv at = loop_ends_put i inv f at
ends_at i s (put_next f t) inv at =
    step_ends i s (put_next f t) inv at (ground arith)
      (λ inv'. test_put_ends f t (s.next t.frag) i _ inv' (ground arith))
ends_at i s (put_test f t n) inv at = test_put_ends f t n i s inv at
ends_at i s (put_link f t n) inv at = link_ends f t n i s inv at
ends_at i s (put_help f t n) inv at = help_put_ends f t n i s inv at
ends_at i s (put_move f t) inv at = move_ends f t i s at
ends_at i s (put_count f) inv at = count_put_ends f i s at
ends_at i s pick_loop inv at = loop_ends_pick i inv at
ends_at i s (pick_tail h) inv at =
    step_ends i s (pick_tail h) inv at (ground arith)
      (λ inv'. next_pick_ends h s.tail i _ inv' (ground arith))
ends_at i s (pick_next h t) inv at = next_pick_ends h t i s inv at
ends_at i s (pick_test h t n) inv at = test_pick_ends h t n i s inv at
ends_at i s (pick_help h t n) inv at = help_pick_ends h t n i s inv at
ends_at i s (pick_unlink h t n) inv at = at_unlink_ends h t n i s inv at
ends_at i s (pick_count f) inv at = count_pick_ends f i s at

-- In every state of a pool that started with the dummy `d`, which is not NULL, if each fragment is
-- given to `mempool_free` at most once, none is NULL or the dummy, and no thread writes NULL into
-- the first word of a fragment that was handed out: wherever other threads stand in their calls, a
-- thread that makes the next steps alone, and whose compare-exchanges fail only on other values, is
-- out of `internal_mempool_put` or `internal_mempool_pick` after finitely many of them; if it was
-- bringing a fragment to the pool, that fragment is then linked.
pub alone-returns :
    {d : Ptr} {s : System}
    → d ≢ null
    → Reach KeepsLink d s
    → (i : ℕ)
    → (k : ℕ) × ((run_alone k i s).pc i ≡ idle)
      × (brings (s.pc i) ≢ null → brings (s.pc i) ∈ (run_alone k i s).linked)
alone-returns {s} ne r i =
    let (k, over) = ends_at i s (s.pc i) (Reach-Inv ne r) refl in
    (k, over, λ some_. run_alone-linked k i s (brings (s.pc i)) some_ (λ out. refl) over)
