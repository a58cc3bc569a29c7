-- ===== src/Shared/Kept.antt =====
-- The first stores of a put and the callers' writes keep the invariant of a shared pool.
use coop_tasks.Base.{
  ℕ, ◌≡◌, ◌≢◌, ◌∈◌, ◌∉◌, refl, sym, ap, subst, ◌∙◌, ◌∷◌, ◌==◌, arith, has, mem_ne, inl, inr,
  Bool-cases,
}
use coop_tasks.Heap.{Ptr, null, Node, node}
use coop_tasks.Shared.Machine.{Pc, idle, putting, put_loop, System, write, set_pc}
use coop_tasks.Shared.Inv.{Local, Outside, brings, Inv, Later, Local-Later}
use coop_tasks.Shared.Lines.{Distinct-apart, Line-frame}
use coop_tasks.Shared.Changes.{locals, aparts, in_linked, parts, brings-Outside}

module _ {s : System} (inv : Inv s) where
  -- The first word of a fragment that is not in the pool is written.
  module _ (f : Ptr) (n : Node) (out : f ∉ s.head.frag ∷ inv.rest) where
    abbrev written : (ℕ → Pc) → System
    written pc = record s { next = write s.next f n; pc = pc }

    written-Later : (pc : ℕ → Pc) → Later s (written pc)
    written-Later pc = record {
      given = λ a m. m;
      linked = λ a m. m;
      handed = λ a m. m;
      links = λ a m o ne. ground (arith, in_linked inv a);
      was_head = λ a m is o. is;
      still_head = λ a m w is. is;
      tail_apart = λ a is was ne. ne;
    }

    written-Inv :
        (pc : ℕ → Pc)
        → ((a : Ptr) → a ∈ s.handed → (write s.next f n a).frag ≢ null)
        → ((i : ℕ) → Local (written pc) (pc i))
        → ((i j : ℕ) → i ≢ j → brings (pc i) ≢ null → brings (pc i) ≢ brings (pc j))
        → Inv (written pc)
    written-Inv pc handed_out local apart = record {
      rest = inv.rest;
      fifo = inv.fifo;
      line =
          Line-frame s.next (write s.next f n) s.head.frag inv.rest
            (λ b m. ground (arith, mem_ne b f (s.head.frag ∷ inv.rest))) inv.line;
      tail_in = inv.tail_in;
      distinct = inv.distinct;
      no_null = inv.no_null;
      linked_given = inv.linked_given;
      out = handed_out;
      local = local;
      apart = apart;
      done = inv.done;
    }

  -- `*frag = MEMORY_FRAGMENT_MAKER()`
  pub made :
      (i : ℕ) (f : Ptr)
      → s.pc i ≡ putting f
      → Inv (record s { next = write s.next f (node 0 null); pc = set_pc s.pc i (put_loop f) })
  made i f at =
      let l : Outside s f = subst (Local s) at (inv.local i) in
      let out : f ∉ s.head.frag ∷ inv.rest = ground (arith, in_linked inv f, l.2) in
      let is_f : brings (s.pc i) ≡ f = ap brings at in
      written-Inv f (node 0 null) out (set_pc s.pc i (put_loop f))
        (λ a m. ground (arith, in_linked inv a, mem_ne f a s.linked l.2, inv.out a m))
        (locals inv {t = written f (node 0 null) out (set_pc s.pc i (put_loop f))} i (put_loop f)
          (written-Later f (node 0 null) out (set_pc s.pc i (put_loop f)))
          (λ j ne some_.
            let other : brings (s.pc i) ≢ brings (s.pc j) =
              inv.apart i j (λ e. ne (sym e)) (λ z. l.0 (sym is_f ∙ z)) in
            record { link = ground arith; outside = λ o. o })
          (l, ground arith))
        (aparts inv i (put_loop f) (inr (sym is_f)))

  -- A caller's write.
  pub used :
      (f : Ptr) (n : Node)
      → f ∈ s.handed
      → n.frag ≢ null
      → Inv (record s { next = write s.next f n })
  used f n m ne =
      let there : f ∈ s.linked = ground (arith, in_linked inv f) in
      let out : f ∉ s.head.frag ∷ inv.rest =
        Distinct-apart f s.handed (s.head.frag ∷ inv.rest) (parts inv) m in
      written-Inv f n out s.pc (λ a m'. ground (arith, inv.out a m'))
        (λ i.
          Local-Later (s.pc i) (written-Later f n out s.pc)
            (λ some_.
              let o = brings-Outside s (s.pc i) (inv.local i) some_ in
              record {
                link = ground (arith, mem_ne (brings (s.pc i)) f s.linked o.2 there);
                outside = λ x. x;
              })
            (inv.local i))
        inv.apart

  -- A caller's call of `mempool_free`.
  pub brought :
      (i : ℕ) (f : Ptr)
      → s.pc i ≡ idle
      → f ≢ null
      → f ∉ s.given
      → Inv (record s { pc = set_pc s.pc i (putting f); given = f ∷ s.given })
  brought i f at ne new =
      let out : f ∉ s.linked = elim (Bool-cases (has f s.linked)) [
        | inl there ↦ ground (arith, inv.linked_given f there)
        | inr not_there ↦ not_there
      ] in
      let t : System = record s { pc = set_pc s.pc i (putting f); given = f ∷ s.given } in
      let later : Later s t = record {
        given = λ a m. ground arith;
        linked = λ a m. m;
        handed = λ a m. m;
        links = λ a m o ne. refl;
        was_head = λ a m is o. is;
        still_head = λ a m w is. is;
        tail_apart = λ a is was ne. ne;
      } in
      let others : (j : ℕ) → brings (s.pc j) ≢ null → brings (s.pc j) ≢ f =
        λ j some_ e. ground (arith, (brings-Outside s (s.pc j) (inv.local j) some_).1) in
      record {
        rest = inv.rest;
        fifo = inv.fifo;
        line = inv.line;
        tail_in = inv.tail_in;
        distinct = inv.distinct;
        no_null = inv.no_null;
        linked_given = λ a m. ground (arith, inv.linked_given a m);
        out = inv.out;
        local =
            locals inv {t = t} i (putting f) later
              (λ j ne some_. record { link = refl; outside = λ o. o }) (ne, ground arith, out);
        apart = λ j k ne'. elim (Bool-cases (j == i)) [
          | inl here ↦ elim (Bool-cases (k == i)) [
            | inl too ↦ absurd (ne' (ground arith))
            | inr other ↦ rw (here, other) (λ some_ e. others k (λ z. some_ (e ∙ z)) (sym e))
          ]
          | inr there ↦ elim (Bool-cases (k == i)) [
            | inl here ↦ rw (there, here) (λ some_. others j some_)
            | inr other ↦ rw (there, other) (inv.apart j k ne')
          ]
        ];
        done = inv.done;
      }
