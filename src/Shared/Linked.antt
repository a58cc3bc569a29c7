-- ===== src/Shared/Linked.antt =====
-- Linking a fragment and unlinking the first one keep the invariant of a shared pool.
use coop_tasks.Base.{
  ℕ, ◌≡◌, ◌≢◌, ◌∈◌, ◌∉◌, refl, sym, ap, subst, ◌∙◌, List, [], ◌∷◌, ◌++◌, ◌==◌, arith, has, Distinct,
  mem_ne, has-append, append_cons, append_assoc, ◌||◌, inl, inr, Bool-cases,
}
use coop_tasks.Heap.{Ptr, null, Node, node}
use coop_tasks.Shared.Machine.{put_link, put_move, pick_unlink, pick_count, System, write, set_pc}
use coop_tasks.Shared.Inv.{Line, Local, brings, Inv, Later}
use coop_tasks.Shared.Lines.{Distinct-behind, Distinct-snoc, Line-link}
use coop_tasks.Shared.Changes.{
  locals, aparts, in_linked, parts, not_handed, in_pool, brings-Outside,
}

module _ {s : System} (inv : Inv s) where
  pub linked_to :
      (i : ℕ) (f : Ptr) (t n : Node) (c : ℕ)
      → s.pc i ≡ put_link f t n
      → s.next t.frag ≡ n
      → Inv (record s {
        next = write s.next t.frag (node c f);
        pc = set_pc s.pc i (put_move f t);
        linked = s.linked ++ f ∷ [];
      })
  linked_to i f t n c at is =
      let l : Local s (put_link f t n) = subst (Local s) at (inv.local i) in
      let is_f : brings (s.pc i) ≡ f = ap brings at in
      let no_next : (s.next t.frag).frag ≡ null = ap (λ m. m.frag) is ∙ l.3 in
      let here : t.frag ∈ s.head.frag ∷ inv.rest = in_pool inv t.frag l.2 no_next in
      let snoc : (a : Ptr) → has a (s.linked ++ f ∷ []) ≡ (has a s.linked || has a (f ∷ [])) =
        λ a. has-append a s.linked (f ∷ []) in
      let u : System = record s {
        next = write s.next t.frag (node c f);
        pc = set_pc s.pc i (put_move f t);
        linked = s.linked ++ f ∷ [];
      } in
      let later : Later s u = record {
        given = λ a m. m;
        linked = λ a m. ground (arith, snoc a);
        handed = λ a m. m;
        links = λ a m o ne. elim (Bool-cases (a == t.frag)) [
          | inl same ↦
              let eq : a ≡ t.frag = ground arith in
              absurd (ne (ap (λ x. (s.next x).frag) eq ∙ no_next))
          | inr other ↦ rw other
        ];
        was_head = λ a m is o. is;
        still_head = λ a m w is. is;
        tail_apart = λ a is was ne. ne;
      } in
      record {
        rest = inv.rest ++ f ∷ [];
        fifo =
            ap (λ xs. xs ++ f ∷ []) inv.fifo
            ∙ append_assoc s.handed (s.head.frag ∷ inv.rest) (f ∷ []);
        line =
            Line-link s.next s.head.frag inv.rest t.frag f c inv.line here no_next
              (ground (arith, in_linked inv null, inv.no_null))
              (Distinct-behind s.handed (s.head.frag ∷ inv.rest) (parts inv))
              (ground (arith, in_linked inv f, l.0.2)) l.1;
        tail_in = ground (arith, inv.tail_in, has-append s.tail.frag inv.rest (f ∷ []));
        distinct = Distinct-snoc f s.linked inv.distinct l.0.2;
        no_null = ground (arith, snoc null, inv.no_null, l.0.0);
        linked_given = λ a m. ground (arith, snoc a, inv.linked_given a, l.0.1);
        out = λ a m. ground (arith, inv.out a m, l.0.0);
        local =
            locals inv {t = u} i (put_move f t) later
              (λ j ne some_.
                let o = brings-Outside s (s.pc j) (inv.local j) some_ in
                let other : brings (s.pc i) ≢ brings (s.pc j) =
                  inv.apart i j (λ e. ne (sym e)) (λ z. l.0.0 (sym is_f ∙ z)) in
                record {
                  link = ground (arith, mem_ne (brings (s.pc j)) t.frag s.linked o.2 l.2);
                  outside = λ x. ground (arith, snoc (brings (s.pc j)));
                })
              (l.0.0, ground (arith, snoc f), ground (arith, snoc t.frag, l.2), λ x. ground arith);
        apart = aparts inv i (put_move f t) (inl refl);
        done = λ a m. ground (arith, snoc a, inv.done a m);
      }

  -- The pool behind its first fragment.
  module _ (i : ℕ) (h : Ptr) (n : Ptr) (c : ℕ) (is_h : s.head.frag ≡ h) (some_next : n ≢ null)
      (link : (s.next h).frag ≡ n) (apart : s.tail.frag ≢ h) where
    second :
        (r : List Ptr)
        → Line s.next s.head.frag r
        → (r' : List Ptr) × (r ≡ n ∷ r') × Line s.next n r'
    second [] l = absurd (some_next (sym link ∙ sym (ap (λ a. (s.next a).frag) is_h) ∙ l))
    second (b ∷ r) l =
        let eq : b ≡ n = sym l.0 ∙ ap (λ a. (s.next a).frag) is_h ∙ link in
        (r, ap (λ a. a ∷ r) eq, subst (λ a. Line s.next a r) eq l.1)

    abbrev after : System
    after = record s {
      head = node c n;
      pc = set_pc s.pc i (pick_count h);
      handed = s.handed ++ h ∷ [];
    }

    unlinked_next : Inv after
    unlinked_next =
        let (r, is_rest, line) = second inv.rest inv.line in
        let snoc : (a : Ptr) → has a (s.handed ++ h ∷ []) ≡ (has a s.handed || has a (h ∷ [])) =
          λ a. has-append a s.handed (h ∷ []) in
        let is_free : s.head.frag ∷ inv.rest ≡ h ∷ n ∷ r =
          ap (λ a. a ∷ inv.rest) is_h ∙ ap (λ xs. h ∷ xs) is_rest in
        let apart_free : Distinct (h ∷ n ∷ r) =
          subst Distinct is_free (Distinct-behind s.handed (s.head.frag ∷ inv.rest) (parts inv)) in
        let n_free : n ∈ s.head.frag ∷ inv.rest =
          subst (λ xs. n ∈ xs) (sym is_free) (ground arith) in
        let n_out = not_handed inv n n_free in
        let later : Later s after = record {
          given = λ a m. m;
          linked = λ a m. m;
          handed = λ a m. ground (arith, snoc a);
          links = λ a m o ne. refl;
          was_head = λ a m here o. ground (arith, snoc a);
          still_head = λ a m w here. w (subst (λ x. x ∉ s.handed) here n_out);
          tail_apart = λ a here was ne. ground (arith, apart_free.0);
        } in
        record {
          rest = r;
          fifo =
              inv.fifo ∙ ap (λ xs. s.handed ++ xs) is_free ∙ sym (append_cons s.handed h (n ∷ r));
          line = line;
          tail_in = ground (arith, subst (λ xs. s.tail.frag ∈ xs) is_free inv.tail_in);
          distinct = inv.distinct;
          no_null = inv.no_null;
          linked_given = inv.linked_given;
          out = λ a m. elim (Bool-cases (a == h)) [
            | inl here ↦
                let at : a ≡ h = ground arith in
                λ z. some_next (sym link ∙ sym (ap (λ x. (s.next x).frag) at) ∙ z)
            | inr other ↦ inv.out a (ground (arith, snoc a))
          ];
          local =
              locals inv {t = after} i (pick_count h) later
                (λ j ne some_. record { link = refl; outside = λ o. o }) tt;
          apart = aparts inv i (pick_count h) (inl refl);
          done = inv.done;
        }

  pub unlinked :
      (i : ℕ) (h t n : Node) (c : ℕ)
      → s.pc i ≡ pick_unlink h t n
      → s.head ≡ h
      → Inv (record s {
        head = node c n.frag;
        pc = set_pc s.pc i (pick_count h.frag);
        handed = s.handed ++ h.frag ∷ [];
      })
  unlinked i h t n c at is =
      let l : Local s (pick_unlink h t n) = subst (Local s) at (inv.local i) in
      let is_h : s.head.frag ≡ h.frag = ap (λ m. m.frag) is in
      let in_free : h.frag ∈ s.head.frag ∷ inv.rest = ground arith in
      let not_out = not_handed inv h.frag in_free in
      let some_next : n.frag ≢ null = l.5 is_h in
      let link : (s.next h.frag).frag ≡ n.frag = l.4 not_out some_next in
      unlinked_next i h.frag n.frag c is_h some_next link (l.3 is_h l.2)
