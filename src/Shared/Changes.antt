-- ===== src/Shared/Changes.antt =====
-- Each kind of change to a shared pool keeps the invariant.
use coop_tasks.Base.{
  ℕ, ◌≡◌, ◌≢◌, ◌∈◌, ◌∉◌, refl, sym, ap, subst, ◌∙◌, List, ◌∷◌, ◌++◌, ◌==◌, arith, has, Distinct,
  has-append, ◌⊎◌, ◌||◌, inl, inr, Bool-cases,
}
use coop_tasks.Heap.{Ptr, null, node}
use coop_tasks.Shared.Machine.{
  Pc, idle, putting, put_loop, put_next, put_test, put_link, put_help, put_move, put_count,
  pick_loop, pick_tail, pick_next, pick_test, pick_help, pick_unlink, pick_count, System, set_pc,
}
use coop_tasks.Shared.Inv.{Local, Outside, brings, Inv, Later, Untouched, Local-Later}
use coop_tasks.Shared.Lines.{Distinct-behind, Distinct-apart, Line-next}

pub brings-Outside : (s : System) (p : Pc) → Local s p → brings p ≢ null → Outside s (brings p)
brings-Outside s idle l ne = absurd (ne refl)
brings-Outside s (putting f) l ne = l
brings-Outside s (put_loop f) l ne = l.0
brings-Outside s (put_next f t) l ne = l.0
brings-Outside s (put_test f t n) l ne = l.0
brings-Outside s (put_link f t n) l ne = l.0
brings-Outside s (put_help f t n) l ne = l.0
brings-Outside s (put_move f t) l ne = absurd (ne refl)
brings-Outside s (put_count f) l ne = absurd (ne refl)
brings-Outside s pick_loop l ne = absurd (ne refl)
brings-Outside s (pick_tail h) l ne = absurd (ne refl)
brings-Outside s (pick_next h t) l ne = absurd (ne refl)
brings-Outside s (pick_test h t n) l ne = absurd (ne refl)
brings-Outside s (pick_help h t n) l ne = absurd (ne refl)
brings-Outside s (pick_unlink h t n) l ne = absurd (ne refl)
brings-Outside s (pick_count f) l ne = absurd (ne refl)

-- Other threads do not see the counters and where a thread stands.
pub unseen-Later :
    (s : System) (pc : ℕ → Pc) (free : ℕ) (done : List Ptr)
    → Later s (record s { pc = pc; freeable = free; returned = done })
unseen-Later s pc free done = record {
  given = λ a m. m;
  linked = λ a m. m;
  handed = λ a m. m;
  links = λ a m o ne. refl;
  was_head = λ a m is o. is;
  still_head = λ a m w is. is;
  tail_apart = λ a is was ne. ne;
}

module _ {s : System} (inv : Inv s) where
  pub in_linked : (a : Ptr) → has a s.linked ≡ (has a s.handed || has a (s.head.frag ∷ inv.rest))
  in_linked a = ap (has a) inv.fifo ∙ has-append a s.handed (s.head.frag ∷ inv.rest)

  pub parts : Distinct (s.handed ++ s.head.frag ∷ inv.rest)
  parts = subst Distinct inv.fifo inv.distinct

  pub not_handed : (a : Ptr) → a ∈ s.head.frag ∷ inv.rest → a ∉ s.handed
  not_handed a m = elim (Bool-cases (has a s.handed)) [
    | inl there ↦ ground (arith, Distinct-apart a s.handed (s.head.frag ∷ inv.rest) parts there)
    | inr not_there ↦ not_there
  ]

  pub in_pool : (a : Ptr) → a ∈ s.linked → (s.next a).frag ≡ null → a ∈ s.head.frag ∷ inv.rest
  in_pool a m z = elim (Bool-cases (has a s.handed)) [
    | inl there ↦ absurd (inv.out a there z)
    | inr not_there ↦ ground (arith, in_linked a)
  ]

  -- The threads after a step of the thread `i` to `p`.
  module _ {t : System} (i : ℕ) (p : Pc) (l : Later s t)
      (u : (j : ℕ) → j ≢ i → brings (s.pc j) ≢ null → Untouched s t (brings (s.pc j))) where
    pub locals : Local t p → (j : ℕ) → Local t (set_pc s.pc i p j)
    locals own j = elim (Bool-cases (j == i)) [
      | inl here ↦ rw here own
      | inr other ↦ rw other (Local-Later (s.pc j) l (u j (ground arith)) (inv.local j))
    ]

  pub aparts :
      (i : ℕ) (p : Pc)
      → ((brings p ≡ null) ⊎ (brings p ≡ brings (s.pc i)))
      → (j k : ℕ) → j ≢ k
      → brings (set_pc s.pc i p j) ≢ null
      → brings (set_pc s.pc i p j) ≢ brings (set_pc s.pc i p k)
  aparts i p same j k ne = elim (Bool-cases (j == i)) [
    | inl here ↦ elim (Bool-cases (k == i)) [
      | inl too ↦ absurd (ne (ground arith))
      | inr other ↦
          rw (here, other)
            (λ some_ e. elim same [
              | inl nothing ↦ some_ nothing
              | inr is ↦ inv.apart i k (ground arith) (λ z. some_ (is ∙ z)) (sym is ∙ e)
            ])
    ]
    | inr there ↦ elim (Bool-cases (k == i)) [
      | inl here ↦
          rw (there, here)
            (λ some_ e. elim same [
              | inl nothing ↦ some_ (e ∙ nothing)
              | inr is ↦ inv.apart j i (ground arith) some_ (e ∙ is)
            ])
      | inr other ↦ rw (there, other) (inv.apart j k ne)
    ]
  ]

  -- A step that changes no more than where the thread stands, and the counters.
  pub stays :
      (i : ℕ) (p : Pc) (free : ℕ) (done : List Ptr)
      → Local s p
      → ((brings p ≡ null) ⊎ (brings p ≡ brings (s.pc i)))
      → ((a : Ptr) → a ∈ done → a ∈ s.linked)
      → Inv (record s { pc = set_pc s.pc i p; freeable = free; returned = done })
  stays i p free done own same done_in = record {
    rest = inv.rest;
    fifo = inv.fifo;
    line = inv.line;
    tail_in = inv.tail_in;
    distinct = inv.distinct;
    no_null = inv.no_null;
    linked_given = inv.linked_given;
    out = inv.out;
    local =
        locals {t = record s { pc = set_pc s.pc i p; freeable = free; returned = done }} i p
          (unseen-Later s (set_pc s.pc i p) free done)
          (λ j ne some_. record { link = refl; outside = λ o. o })
          (Local-Later p (unseen-Later s (set_pc s.pc i p) free done)
            (λ some_. record { link = refl; outside = λ o. o }) own);
    apart = aparts i p same;
    done = done_in;
  }

  -- The tail moves on to the next fragment.
  pub tail_moves :
      (i : ℕ) (p : Pc) (c : ℕ) (x : Ptr)
      → (s.next s.tail.frag).frag ≡ x
      → x ≢ null
      → Local s p
      → ((brings p ≡ null) ⊎ (brings p ≡ brings (s.pc i)))
      → Inv (record s { tail = node c x; pc = set_pc s.pc i p })
  tail_moves i p c x is ne own same =
      let behind : x ∈ inv.rest =
        subst (λ y. y ∈ inv.rest) is
          (Line-next s.next s.head.frag inv.rest s.tail.frag inv.line inv.tail_in
            (λ z. ne (sym is ∙ z))) in
      let t : System = record s { tail = node c x; pc = set_pc s.pc i p } in
      let later : Later s t = record {
        given = λ a m. m;
        linked = λ a m. m;
        handed = λ a m. m;
        links = λ a m o ne. refl;
        was_head = λ a m is o. is;
        still_head = λ a m w is. is;
        tail_apart = λ a here was ne e.
            ground (arith, (Distinct-behind s.handed (s.head.frag ∷ inv.rest) parts).0);
      } in
      record {
        rest = inv.rest;
        fifo = inv.fifo;
        line = inv.line;
        tail_in = ground (arith, behind);
        distinct = inv.distinct;
        no_null = inv.no_null;
        linked_given = inv.linked_given;
        out = inv.out;
        local =
            locals {t = t} i p later (λ j ne some_. record { link = refl; outside = λ o. o })
              (Local-Later p later (λ some_. record { link = refl; outside = λ o. o }) own);
        apart = aparts i p same;
        done = inv.done;
      }
