-- ===== src/SharedTests.antt =====
-- The theorems on a shared pool, at a pool that a thread took its dummy from while another one adds.
use coop_tasks.Base.{ℕ, ◌^◌, ◌-◌, ◌≡◌, ◌≢◌, ◌∈◌, refl, List, [], ◌∷◌, ◌++◌, arith, Distinct}
use coop_tasks.Heap.{Ptr, null, node}
use coop_tasks.Shared.{
  idle, brings, put_loop, set_pc, put_link, System, Move, make, load_tail, load_next, at_end, link,
  link_fails, move_tail, count_put, load_head, load_tail_too, load_head_next, not_empty, unlink,
  count_pick, move, free, alloc, use_fragment, Reach, at_first, then_step, Line, KeepsLink,
  tail_behind, help_pick, AnyWrite, act, run_alone, linked-handed, Move-handed, zeroed-overwritten,
  alone-returns,
}

-- The thread 0 is about to link 2 to the dummy 1, when the thread 1 puts 3, is handed 1, and writes
-- to it.
overtaken :
    (s : System) × Reach KeepsLink 1 s
    × (s.pc 0 ≡ put_link 2 (node 0 1) (node 0 null))
    × (s.handed ≡ 1 ∷ [])
    × (s.linked ≡ 1 ∷ 3 ∷ [])
overtaken =
    let r1 : Reach KeepsLink 1 _ =
      then_step at_first (free 0 2 refl (ground arith) (ground arith)) in
    let r2 : Reach KeepsLink 1 _ = then_step r1 (move 0 (make 2 refl)) in
    let r3 : Reach KeepsLink 1 _ = then_step r2 (move 0 (load_tail 2 refl)) in
    let r4 : Reach KeepsLink 1 _ = then_step r3 (move 0 (load_next 2 _ refl)) in
    let r5 : Reach KeepsLink 1 _ = then_step r4 (move 0 (at_end 2 _ _ refl refl refl)) in
    let r6 : Reach KeepsLink 1 _ = then_step r5 (free 1 3 refl (ground arith) (ground arith)) in
    let r7 : Reach KeepsLink 1 _ = then_step r6 (move 1 (make 3 refl)) in
    let r8 : Reach KeepsLink 1 _ = then_step r7 (move 1 (load_tail 3 refl)) in
    let r9 : Reach KeepsLink 1 _ = then_step r8 (move 1 (load_next 3 _ refl)) in
    let r10 : Reach KeepsLink 1 _ = then_step r9 (move 1 (at_end 3 _ _ refl refl refl)) in
    let r11 : Reach KeepsLink 1 _ = then_step r10 (move 1 (link 3 _ _ refl refl)) in
    let r12 : Reach KeepsLink 1 _ = then_step r11 (move 1 (move_tail 3 _ refl refl)) in
    let r13 : Reach KeepsLink 1 _ = then_step r12 (move 1 (count_put 3 refl)) in
    let r14 : Reach KeepsLink 1 _ = then_step r13 (alloc 1 refl) in
    let r15 : Reach KeepsLink 1 _ = then_step r14 (move 1 (load_head refl)) in
    let r16 : Reach KeepsLink 1 _ = then_step r15 (move 1 (load_tail_too _ refl)) in
    let r17 : Reach KeepsLink 1 _ = then_step r16 (move 1 (load_head_next _ _ refl)) in
    let r18 : Reach KeepsLink 1 _ =
      then_step r17 (move 1 (not_empty _ _ _ refl refl (ground arith))) in
    let r19 : Reach KeepsLink 1 _ = then_step r18 (move 1 (unlink _ _ _ refl refl)) in
    let r20 : Reach KeepsLink 1 _ = then_step r19 (move 1 (count_pick _ refl)) in
    let r21 : Reach KeepsLink 1 _ = then_step r20 (use_fragment 1 (node 7 9) refl (ground arith)) in
    (_, r21, refl, refl, refl)

abbrev state : System
state = overtaken.0

linked-handed_example :
    Distinct state.linked
    × ((a : Ptr) → a ∈ state.returned → a ∈ state.linked)
    × ((rest : List Ptr) × (state.linked ≡ state.handed ++ state.head.frag ∷ rest)
        × Line state.next state.head.frag rest)
linked-handed_example = linked-handed {d = 1} (ground arith) overtaken.1

-- The first thread finds that its fragment has another link.
Move-handed_example : (record state { pc = set_pc state.pc 0 (put_loop 2) }).next 1 ≡ state.next 1
unfolding overtaken
Move-handed_example =
    Move-handed {d = 1} (ground arith) overtaken.1 0 (link_fails 2 _ _ overtaken.2) 1 refl

-- It then starts again, and is through.
alone-returns_example :
    (k : ℕ) × ((run_alone k 0 state).pc 0 ≡ idle)
    × (brings (state.pc 0) ≢ null → brings (state.pc 0) ∈ (run_alone k 0 state).linked)
alone-returns_example = alone-returns {d = 1} (ground arith) overtaken.1 0

seven_steps : (run_alone 7 0 state).pc 0 ≡ idle
unfolding overtaken run_alone act
seven_steps = refl

zeroed-overwritten_example :
    (s : System) × (t : System) × Reach AnyWrite 1 s
    × Move 0 s t
    × (1 ∈ s.handed)
    × (s.next 1 ≡ node 0 null)
    × ((t.next 1).frag ≡ 2)
    × (t.head.frag ≡ 3)
    × ((t.next 3).frag ≡ null)
zeroed-overwritten_example =
    zeroed-overwritten 1 2 3 (ground arith) (ground arith) (ground arith) (ground arith)
      (ground arith)

-- The thread 0 has linked 2 and not counted it yet, when the thread 1 takes the dummy 1 and counts it
-- out: `freeable` is -1 as a signed number.
counted_below_zero : (s : System) × Reach KeepsLink 1 s × (s.freeable ≡ 2 ^ 64 - 1)
counted_below_zero =
    let r1 : Reach KeepsLink 1 _ =
      then_step at_first (free 0 2 refl (ground arith) (ground arith)) in
    let r2 : Reach KeepsLink 1 _ = then_step r1 (move 0 (make 2 refl)) in
    let r3 : Reach KeepsLink 1 _ = then_step r2 (move 0 (load_tail 2 refl)) in
    let r4 : Reach KeepsLink 1 _ = then_step r3 (move 0 (load_next 2 _ refl)) in
    let r5 : Reach KeepsLink 1 _ = then_step r4 (move 0 (at_end 2 _ _ refl refl refl)) in
    let r6 : Reach KeepsLink 1 _ = then_step r5 (move 0 (link 2 _ _ refl refl)) in
    let r7 : Reach KeepsLink 1 _ = then_step r6 (alloc 1 refl) in
    let r8 : Reach KeepsLink 1 _ = then_step r7 (move 1 (load_head refl)) in
    let r9 : Reach KeepsLink 1 _ = then_step r8 (move 1 (load_tail_too _ refl)) in
    let r10 : Reach KeepsLink 1 _ = then_step r9 (move 1 (load_head_next _ _ refl)) in
    let r11 : Reach KeepsLink 1 _ =
      then_step r10 (move 1 (tail_behind _ _ _ refl refl refl (ground arith))) in
    let r12 : Reach KeepsLink 1 _ = then_step r11 (move 1 (help_pick _ _ _ refl refl)) in
    let r13 : Reach KeepsLink 1 _ = then_step r12 (move 1 (load_head refl)) in
    let r14 : Reach KeepsLink 1 _ = then_step r13 (move 1 (load_tail_too _ refl)) in
    let r15 : Reach KeepsLink 1 _ = then_step r14 (move 1 (load_head_next _ _ refl)) in
    let r16 : Reach KeepsLink 1 _ =
      then_step r15 (move 1 (not_empty _ _ _ refl refl (ground arith))) in
    let r17 : Reach KeepsLink 1 _ = then_step r16 (move 1 (unlink _ _ _ refl refl)) in
    let r18 : Reach KeepsLink 1 _ = then_step r17 (move 1 (count_pick _ refl)) in (_, r18, refl)
