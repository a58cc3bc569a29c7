-- ===== src/Shared/Carried.antt =====
-- A thread that is on its own in a put links the fragment that it brought.
use coop_tasks.Base.{
  ℕ, zero, suc, ◌≡◌, ◌≢◌, ◌∈◌, ◌∉◌, refl, sym, ap, subst, ◌∙◌, [], ◌∷◌, ◌==◌, true, arith, has,
  has-append, inl, inr, Bool-cases,
}
use coop_tasks.Heap.{Ptr, null, equals}
use coop_tasks.Shared.Machine.{
  Pc, idle, putting, put_loop, put_next, put_test, put_link, put_help, put_move, put_count,
  pick_loop, pick_tail, pick_next, pick_test, pick_help, pick_unlink, pick_count, System, set_pc,
}
use coop_tasks.Shared.Inv.{brings}
use coop_tasks.Shared.Solo.{act, run_alone}

-- The fragment is brought from the place `p`, unless it is linked.
abbrev Carried : System → Pc → Ptr → Type 0
Carried s p f = f ∉ s.linked → brings p ≡ f

set_pc-Carried :
    (i : ℕ) (s : System) (f : Ptr) (p q : Pc)
    → brings q ≡ brings p
    → Carried s p f
    → Carried s (set_pc s.pc i q i) f
set_pc-Carried i s f p q same c =
    let here : (i == i) ≡ true = ground arith in rw here (λ out. same ∙ c out)

act-Carried :
    (i : ℕ) (s : System) (f : Ptr) (p : Pc)
    → Carried s p f
    → s.pc i ≡ p
    → Carried (act i p s) ((act i p s).pc i) f
unfolding act
act-Carried i s f idle c at = subst (λ p. Carried s p f) (sym at) c
act-Carried i s f (putting g) c at = set_pc-Carried i s f (putting g) (put_loop g) refl c
act-Carried i s f (put_loop g) c at = set_pc-Carried i s f (put_loop g) (put_next g s.tail) refl c
act-Carried i s f (put_next g t) c at =
    set_pc-Carried i s f (put_next g t) (put_test g t (s.next t.frag)) refl c
act-Carried i s f (put_test g t n) c at =
    set_pc-Carried i s f (put_test g t n) _
      (elim (Bool-cases (equals s.tail t)) [
        | inl same ↦ elim (Bool-cases (n.frag == null)) [
          | inl last ↦ rw (same, last) refl
          | inr more_ ↦ rw (same, more_) refl
        ]
        | inr other ↦ rw other refl
      ])
      c
act-Carried i s f (put_link g t n) c at = elim (Bool-cases (equals (s.next t.frag) n)) [
  | inl same ↦ rw same (λ out. absurd (ground (arith, has-append f s.linked (g ∷ []), c)))
  | inr other ↦ rw other (set_pc-Carried i s f (put_link g t n) (put_loop g) refl c)
]
act-Carried i s f (put_help g t n) c at = elim (Bool-cases (equals s.tail t)) [
  | inl same ↦ rw same (set_pc-Carried i s f (put_help g t n) (put_loop g) refl c)
  | inr other ↦ rw other (set_pc-Carried i s f (put_help g t n) (put_loop g) refl c)
]
act-Carried i s f (put_move g t) c at = elim (Bool-cases (equals s.tail t)) [
  | inl same ↦ rw same (set_pc-Carried i s f (put_move g t) (put_count g) refl c)
  | inr other ↦ rw other (set_pc-Carried i s f (put_move g t) (put_count g) refl c)
]
act-Carried i s f (put_count g) c at = set_pc-Carried i s f (put_count g) idle refl c
act-Carried i s f pick_loop c at = set_pc-Carried i s f pick_loop (pick_tail s.head) refl c
act-Carried i s f (pick_tail h) c at =
    set_pc-Carried i s f (pick_tail h) (pick_next h s.tail) refl c
act-Carried i s f (pick_next h t) c at =
    set_pc-Carried i s f (pick_next h t) (pick_test h t (s.next h.frag)) refl c
act-Carried i s f (pick_test h t n) c at =
    set_pc-Carried i s f (pick_test h t n) _
      (elim (Bool-cases (equals s.head h)) [
        | inl same ↦ elim (Bool-cases (h.frag == t.frag)) [
          | inl here ↦ elim (Bool-cases (n.frag == null)) [
            | inl last ↦ rw (same, here, last) refl
            | inr more_ ↦ rw (same, here, more_) refl
          ]
          | inr there ↦ rw (same, there) refl
        ]
        | inr other ↦ rw other refl
      ])
      c
act-Carried i s f (pick_help h t n) c at = elim (Bool-cases (equals s.tail t)) [
  | inl same ↦ rw same (set_pc-Carried i s f (pick_help h t n) pick_loop refl c)
  | inr other ↦ rw other (set_pc-Carried i s f (pick_help h t n) pick_loop refl c)
]
act-Carried i s f (pick_unlink h t n) c at = elim (Bool-cases (equals s.head h)) [
  | inl same ↦ rw same (set_pc-Carried i s f (pick_unlink h t n) (pick_count h.frag) refl c)
  | inr other ↦ rw other (set_pc-Carried i s f (pick_unlink h t n) pick_loop refl c)
]
act-Carried i s f (pick_count g) c at = set_pc-Carried i s f (pick_count g) idle refl c

pub run_alone-linked :
    (k : ℕ) (i : ℕ) (s : System) (f : Ptr)
    → f ≢ null
    → Carried s (s.pc i) f
    → (run_alone k i s).pc i ≡ idle
    → f ∈ (run_alone k i s).linked
unfolding run_alone
run_alone-linked zero i s f ne c at = elim (Bool-cases (has f s.linked)) [
  | inl in_ ↦ in_
  | inr out ↦ absurd (ne (sym (c out) ∙ ap brings at))
]
run_alone-linked (suc k) i s f ne c at =
    run_alone-linked k i (act i (s.pc i) s) f ne (act-Carried i s f (s.pc i) c refl) at
