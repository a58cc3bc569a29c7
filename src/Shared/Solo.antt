-- ===== src/Shared/Solo.antt =====
-- The steps of one thread in internal_mempool_put and internal_mempool_pick of src/collections.c, where
-- a compare-exchange fails only if it finds another value.
use coop_tasks.Base.{
  ℕ, zero, suc, ◌≡◌, ◌≢◌, refl, [], ◌∷◌, ◌++◌, ◌==◌, true, false, arith, if◌then◌else◌, inl, inr,
  Bool-cases, inc32, inc64, dec64,
}
use coop_tasks.Heap.{null, Node, node, equals}
use coop_tasks.Shared.Machine.{
  Pc, idle, putting, put_loop, put_next, put_test, put_link, put_help, put_move, put_count,
  pick_loop, pick_tail, pick_next, pick_test, pick_help, pick_unlink, pick_count, System, write,
  set_pc, Move, make, load_tail, load_next, tail_moved, at_end, behind, link, link_fails, help_put,
  help_put_fails, move_tail, move_tail_fails, count_put, load_head, load_tail_too, load_head_next,
  head_moved, empty, tail_behind, not_empty, help_pick, help_pick_fails, unlink, unlink_fails,
  count_pick,
}

abbrev pub go : ℕ → Pc → System → System
go i p s = record s { pc = set_pc s.pc i p }

-- The next step of the thread `i`, which stands at the given place.
unfoldable pub act : ℕ → Pc → System → System
act i idle s = s
act i (putting f) s = record s {
  next = write s.next f (node 0 null);
  pc = set_pc s.pc i (put_loop f);
}
act i (put_loop f) s = go i (put_next f s.tail) s
act i (put_next f t) s = go i (put_test f t (s.next t.frag)) s
act i (put_test f t n) s =
    go i
      (if equals s.tail t
        then (if n.frag == null then put_link f t n else put_help f t n)
        else put_loop f)
      s
act i (put_link f t n) s =
    if equals (s.next t.frag) n
    then record s {
      next = write s.next t.frag (node (inc32 n.count) f);
      pc = set_pc s.pc i (put_move f t);
      linked = s.linked ++ f ∷ [];
    }
    else go i (put_loop f) s
act i (put_help f t n) s =
    if equals s.tail t
    then record s { tail = node (inc32 t.count) n.frag; pc = set_pc s.pc i (put_loop f) }
    else go i (put_loop f) s
act i (put_move f t) s =
    if equals s.tail t
    then record s { tail = node (inc32 t.count) f; pc = set_pc s.pc i (put_count f) }
    else go i (put_count f) s
act i (put_count f) s = record s {
  freeable = inc64 s.freeable;
  pc = set_pc s.pc i idle;
  returned = s.returned ++ f ∷ [];
}
act i pick_loop s = go i (pick_tail s.head) s
act i (pick_tail h) s = go i (pick_next h s.tail) s
act i (pick_next h t) s = go i (pick_test h t (s.next h.frag)) s
act i (pick_test h t n) s =
    go i
      (if equals s.head h
        then (if h.frag == t.frag
            then (if n.frag == null then idle else pick_help h t n)
            else pick_unlink h t n)
        else pick_loop)
      s
act i (pick_help h t n) s =
    if equals s.tail t
    then record s { tail = node (inc32 t.count) n.frag; pc = set_pc s.pc i pick_loop }
    else go i pick_loop s
act i (pick_unlink h t n) s =
    if equals s.head h
    then record s {
      head = node (inc32 h.count) n.frag;
      pc = set_pc s.pc i (pick_count h.frag);
      handed = s.handed ++ h.frag ∷ [];
    }
    else go i pick_loop s
act i (pick_count f) s = record s { freeable = dec64 s.freeable; pc = set_pc s.pc i idle }

-- As many steps of that thread.
unfoldable pub run_alone : ℕ → ℕ → System → System
run_alone zero i s = s
run_alone (suc k) i s = run_alone k i (act i (s.pc i) s)

pub equals-eq : (a b : Node) → equals a b ≡ true → a ≡ b
equals-eq a b e = ground arith

pub equals-ne : (a b : Node) → equals a b ≡ false → a ≢ b
equals-ne a b e = ground arith

pub equals_refl : (a : Node) → equals a a ≡ true
equals_refl a = ground arith

-- Such a step is one of the steps that a thread can make.
pub act-Move : (i : ℕ) (s : System) (p : Pc) → s.pc i ≡ p → p ≢ idle → Move i s (act i p s)
unfolding act
act-Move i s idle at ne = absurd (ne refl)
act-Move i s (putting f) at ne = make f at
act-Move i s (put_loop f) at ne = load_tail f at
act-Move i s (put_next f t) at ne = load_next f t at
act-Move i s (put_test f t n) at ne = elim (Bool-cases (equals s.tail t)) [
  | inl same ↦ elim (Bool-cases (n.frag == null)) [
    | inl last ↦ rw (same, last) (at_end f t n at (equals-eq s.tail t same) (ground arith))
    | inr more ↦ rw (same, more) (behind f t n at (equals-eq s.tail t same) (ground arith))
  ]
  | inr other ↦ rw other (tail_moved f t n at (equals-ne s.tail t other))
]
act-Move i s (put_link f t n) at ne = elim (Bool-cases (equals (s.next t.frag) n)) [
  | inl same ↦ rw same (link f t n at (equals-eq (s.next t.frag) n same))
  | inr other ↦ rw other (link_fails f t n at)
]
act-Move i s (put_help f t n) at ne = elim (Bool-cases (equals s.tail t)) [
  | inl same ↦ rw same (help_put f t n at (equals-eq s.tail t same))
  | inr other ↦ rw other (help_put_fails f t n at)
]
act-Move i s (put_move f t) at ne = elim (Bool-cases (equals s.tail t)) [
  | inl same ↦ rw same (move_tail f t at (equals-eq s.tail t same))
  | inr other ↦ rw other (move_tail_fails f t at)
]
act-Move i s (put_count f) at ne = count_put f at
act-Move i s pick_loop at ne = load_head at
act-Move i s (pick_tail h) at ne = load_tail_too h at
act-Move i s (pick_next h t) at ne = load_head_next h t at
act-Move i s (pick_test h t n) at ne = elim (Bool-cases (equals s.head h)) [
  | inl same ↦ elim (Bool-cases (h.frag == t.frag)) [
    | inl here ↦ elim (Bool-cases (n.frag == null)) [
      | inl last ↦
          rw (same, here, last)
            (empty h t n at (equals-eq s.head h same) (ground arith) (ground arith))
      | inr more_ ↦
          rw (same, here, more_)
            (tail_behind h t n at (equals-eq s.head h same) (ground arith) (ground arith))
    ]
    | inr there ↦ rw (same, there) (not_empty h t n at (equals-eq s.head h same) (ground arith))
  ]
  | inr other ↦ rw other (head_moved h t n at (equals-ne s.head h other))
]
act-Move i s (pick_help h t n) at ne = elim (Bool-cases (equals s.tail t)) [
  | inl same ↦ rw same (help_pick h t n at (equals-eq s.tail t same))
  | inr other ↦ rw other (help_pick_fails h t n at)
]
act-Move i s (pick_unlink h t n) at ne = elim (Bool-cases (equals s.head h)) [
  | inl same ↦ rw same (unlink h t n at (equals-eq s.head h same))
  | inr other ↦ rw other (unlink_fails h t n at)
]
act-Move i s (pick_count f) at ne = count_pick f at
