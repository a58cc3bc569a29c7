-- ===== src/Shared/Ends.antt =====
-- The loops of the pool end for a thread on its own: what it finds is what it read, and the tail is at
-- most a line of fragments away from the end.
use coop_tasks.Base.{
  ℕ, suc, ◌≡◌, ◌∈◌, ◌∉◌, sym, ap, subst, ◌∙◌, List, [], ◌∷◌, ◌==◌, true, false, arith,
  if◌then◌else◌, inl, inr, Bool-cases,
}
use coop_tasks.Heap.{Ptr, null, Node, equals}
use coop_tasks.Shared.Machine.{
  Pc, idle, put_loop, put_next, put_test, put_link, put_help, put_move, put_count, pick_loop,
  pick_tail, pick_next, pick_test, pick_help, pick_unlink, pick_count, System, set_pc,
}
use coop_tasks.Shared.Inv.{Line}
use coop_tasks.Shared.Solo.{go, act, run_alone, equals_refl}

-- The thread's call is over after some number of its steps.
abbrev pub Ends : ℕ → System → Type 0
Ends i s = (k : ℕ) × ((run_alone k i s).pc i ≡ idle)

pub set_pc-here : (f : ℕ → Pc) (i : ℕ) (p : Pc) → set_pc f i p i ≡ p
set_pc-here f i p = ground arith

pub ended : (i : ℕ) (s : System) → s.pc i ≡ idle → Ends i s
unfolding run_alone
ended i s at = (0, at)

pub ends-step : (i : ℕ) (s : System) (p : Pc) → s.pc i ≡ p → Ends i (act i p s) → Ends i s
unfolding run_alone
ends-step i s p at (k, e) = (suc k, subst (λ q. (run_alone k i (act i q s)).pc i ≡ idle) (sym at) e)

pub count_put_ends : (f : Ptr) (i : ℕ) (s : System) → s.pc i ≡ put_count f → Ends i s
unfolding act
count_put_ends f i s at = ends-step i s (put_count f) at (ended i _ (set_pc-here s.pc i idle))

pub move_ends : (f : Ptr) (t : Node) (i : ℕ) (s : System) → s.pc i ≡ put_move f t → Ends i s
unfolding act
move_ends f t i s at = ends-step i s (put_move f t) at (elim (Bool-cases (equals s.tail t)) [
  | inl same ↦ rw same (count_put_ends f i _ (set_pc-here s.pc i (put_count f)))
  | inr other ↦ rw other (count_put_ends f i _ (set_pc-here s.pc i (put_count f)))
])

-- Up to the test of what was read, which holds.
pub put_tests :
    (f : Ptr) (i : ℕ) (s : System)
    → s.pc i ≡ put_loop f
    → let n = s.next s.tail.frag in
      let s3 = go i (put_test f s.tail n) (go i (put_next f s.tail) s) in
      Ends i (go i (if n.frag == null then put_link f s.tail n else put_help f s.tail n) s3)
      → Ends i s
unfolding act
put_tests f i s at e =
    let n = s.next s.tail.frag in
    let s2 = go i (put_next f s.tail) s in
    let s3 = go i (put_test f s.tail n) s2 in
    ends-step i s (put_loop f) at (
      ends-step i s2 (put_next f s.tail) (set_pc-here s.pc i _)
        (ends-step i s3 (put_test f s.tail n) (set_pc-here s2.pc i _) (rw (equals_refl s.tail) e)))

pub put_ends :
    (ys : List Ptr) (f : Ptr) (i : ℕ) (s : System)
    → Line s.next s.tail.frag ys
    → null ∉ ys
    → s.pc i ≡ put_loop f
    → Ends i s
unfolding act
put_ends [] f i s l nn at =
    let n = s.next s.tail.frag in
    let last : (n.frag == null) ≡ true = ground arith in
    put_tests f i s at (
      rw last (
        ends-step i _ (put_link f s.tail n) (ground arith)
          (rw (equals_refl n) (move_ends f s.tail i _ (ground arith)))))
put_ends (b ∷ r) f i s l nn at =
    let n = s.next s.tail.frag in
    let more_ : (n.frag == null) ≡ false = ground arith in
    put_tests f i s at (
      rw more_ (
        ends-step i _ (put_help f s.tail n) (ground arith)
          (rw (equals_refl s.tail) (put_ends r f i _ (rw l.0 l.1) (ground arith) (ground arith)))))

pub count_pick_ends : (f : Ptr) (i : ℕ) (s : System) → s.pc i ≡ pick_count f → Ends i s
unfolding act
count_pick_ends f i s at = ends-step i s (pick_count f) at (ended i _ (set_pc-here s.pc i idle))

pub pick_tests :
    (i : ℕ) (s : System)
    → s.pc i ≡ pick_loop
    → let h = s.head in
      let t = s.tail in
      let n = s.next h.frag in
      let s4 = go i (pick_test h t n) (go i (pick_next h t) (go i (pick_tail h) s)) in
      Ends i (
        go i
          (if h.frag == t.frag
            then (if n.frag == null then idle else pick_help h t n)
            else pick_unlink h t n)
          s4)
      → Ends i s
unfolding act
pick_tests i s at e =
    let h = s.head in
    let t = s.tail in
    let n = s.next h.frag in
    let s2 = go i (pick_tail h) s in
    let s3 = go i (pick_next h t) s2 in
    let s4 = go i (pick_test h t n) s3 in
    ends-step i s pick_loop at (
      ends-step i s2 (pick_tail h) (set_pc-here s.pc i _) (
        ends-step i s3 (pick_next h t) (set_pc-here s2.pc i _)
          (ends-step i s4 (pick_test h t n) (set_pc-here s3.pc i _) (rw (equals_refl h) e))))

pub first_unlink_ends :
    (i : ℕ) (s : System)
    → let h = s.head in
      let t = s.tail in
      let n = s.next h.frag in
      let s4 = go i (pick_test h t n) (go i (pick_next h t) (go i (pick_tail h) s)) in
      Ends i (go i (pick_unlink h t n) s4)
unfolding act
first_unlink_ends i s =
    ends-step i _ (pick_unlink s.head s.tail (s.next s.head.frag)) (ground arith)
      (rw (equals_refl s.head) (count_pick_ends s.head.frag i _ (ground arith)))

pub pick_ends :
    (ys : List Ptr) (i : ℕ) (s : System)
    → Line s.next s.tail.frag ys
    → null ∉ ys
    → s.pc i ≡ pick_loop
    → Ends i s
unfolding act
pick_ends [] i s l nn at =
    let n = s.next s.head.frag in
    pick_tests i s at (elim (Bool-cases (s.head.frag == s.tail.frag)) [
      | inl here ↦
          let same : s.head.frag ≡ s.tail.frag = ground arith in
          let last : (n.frag == null) ≡ true = rw same (ground arith) in
          rw (here, last) (ended i _ (ground arith))
      | inr there ↦ rw there (first_unlink_ends i s)
    ])
pick_ends (b ∷ r) i s l nn at =
    let n = s.next s.head.frag in
    pick_tests i s at (elim (Bool-cases (s.head.frag == s.tail.frag)) [
      | inl here ↦
          let same : s.head.frag ≡ s.tail.frag = ground arith in
          let is : n.frag ≡ b = ap (λ a. (s.next a).frag) same ∙ l.0 in
          let more_ : (n.frag == null) ≡ false = ground arith in
          rw (here, more_)
            (ends-step i _ (pick_help s.head s.tail n) (ground arith)
              (rw (equals_refl s.tail) (pick_ends r i _ (rw is l.1) (ground arith) (ground arith))))
      | inr there ↦ rw there (first_unlink_ends i s)
    ])

-- The fragments behind a fragment of a line.
pub Line-from :
    (next : Ptr → Node) (a : Ptr) (r : List Ptr) (t : Ptr)
    → Line next a r
    → t ∈ a ∷ r
    → null ∉ r
    → (ys : List Ptr) × Line next t ys × (null ∉ ys)
Line-from next a [] t l m nn = let at : t ≡ a = ground arith in ([], rw at l, nn)
Line-from next a (b ∷ r) t l m nn = elim (Bool-cases (t == a)) [
  | inl here ↦ let at : t ≡ a = ground arith in (b ∷ r, rw at l, nn)
  | inr behind_ ↦ Line-from next b r t l.1 (ground arith) (ground arith)
]
