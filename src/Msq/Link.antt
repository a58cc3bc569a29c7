-- ===== src/Msq/Link.antt =====
-- `link_last` puts a fragment at the end of the chain, whatever compare-exchanges fail.
use coop_tasks.Base.{
  suc, ◌≤◌, ◌≡◌, ◌≢◌, ◌⊎◌, inl, inr, refl, sym, ap, subst, ◌∙◌, true, some, List, [], ◌∷◌, ◌++◌,
  arith, ◌∈◌, ◌∉◌, ◌==◌, inc32, length, has-append, mem_ne, Bool-cases,
}
use coop_tasks.Heap.{
  Ptr, null, Node, node, equals, Cell, World, agree, head_or, Turn, again, leave, repeat,
}
use coop_tasks.Heap.Chain.{
  Chain, link_at, bytes_at, link_of, last, last-mem, last-append, Chain-append,
}
use coop_tasks.Heap.Access.{
  Holds, load-ok, length-tail_of, length-tail_of-lt, cas_next-lost, cas_next-won, link_at-write,
  bytes_at-write, write_other, link_at-Holds, bytes_at-Holds,
}
use coop_tasks.Heap.Returns
use coop_tasks.Heap.Returns.{Returns, returns, Round, repeat_rule, bind}
use coop_tasks.Msq.Defs.{Ends, cas_tail, link_here, link_once, link_last}
use coop_tasks.Msq.Line.{IsLine}
use coop_tasks.Msq.Help.{
  Helped, tail_cell, lag-end, help_tail-Helped, line_measure, Looping, Looping-Helped,
}

-- After the link is written: `f` is behind the last fragment, and nothing else has changed.
pub record Linked (e : Ends) (w : World) (p : Ptr) (qs : List Ptr) (f : Ptr) (t : Node) (e' : Ends)
    (v : World) : Type 0 where
  pub at_end : t.frag ≡ last p qs
  pub tail : e'.tail ≡ t
  pub head : e'.head ≡ e.head
  pub link : link_at v.heap (last p qs) ≡ some f
  pub others : (a : Ptr) → a ≢ last p qs → v.heap a ≡ w.heap a
  pub bytes : (a : Ptr) → bytes_at v.heap a ≡ bytes_at w.heap a
  pub blocks : v.blocks ≡ w.blocks
  pub errno : v.errno ≡ w.errno
  pub fewer : length v.spurious ≤ length w.spurious

-- What a round at the end of the chain may come to.
pub data Linking (e : Ends) (w : World) (p : Ptr) (qs : List Ptr) (f : Ptr)
    : Turn Node × Ends → World → Type 0 where
  lost : {e' : Ends} {v : World} → Helped e w p qs e' v → Linking e w p qs f (again, e') v
  won :
      {t : Node} {e' : Ends} {v : World}
      → Linked e w p qs f t e' v
      → Linking e w p qs f (leave t, e') v

link_here-Linking :
    (w : World) (e : Ends) (p : Ptr) (qs : List Ptr) (f : Ptr) (c : Cell)
    → IsLine (link_at w.heap) e p qs
    → Holds w.heap e.tail.frag c
    → c.next.frag ≡ null
    → Returns (Linking e w p qs f) (link_here f e e.tail c.next w)
unfolding link_here
link_here-Linking w e p qs f c is at end = elim (Bool-cases (head_or w.spurious)) [
  | inl failed ↦ rw (cas_next-lost w at n failed) (
      returns (
        lost (record {
          line = is;
          answers = record {
            heap = refl;
            blocks = refl;
            errno = refl;
            fewer = length-tail_of w.spurious;
          };
          head = refl;
          less = omega (arith, length-tail_of-lt w.spurious failed);
        })))
  | inr succeeded ↦ rw (cas_next-won w at n succeeded) (
      returns (
        won (record {
          at_end = at_end;
          tail = refl;
          head = refl;
          link = rw link_at-write (ground (arith, at_end));
          others = λ a ne. write_other w.heap e.tail.frag _ a (rw at_end ne);
          bytes = λ a. rw bytes_at-write (ground (arith, bytes_at-Holds w.heap e.tail.frag c at));
          blocks = refl;
          errno = refl;
          fewer = length-tail_of w.spurious;
        })))
]
  where
    n : Node
    n = node (inc32 c.next.count) f

    at_end : e.tail.frag ≡ last p qs
    at_end = lag-end (link_at w.heap) e p qs is (rw (link_at-Holds w.heap e.tail.frag c at, end))

Looping-Linked :
    {e s t : Ends} {w v u : World} {p : Ptr} {qs : List Ptr} {f : Ptr} {n : Node}
    → Looping e w p qs s v
    → Linked s v p qs f n t u
    → Linked e w p qs f n t u
Looping-Linked {w} {u} loop done = record {
  at_end = done.at_end;
  tail = done.tail;
  head = done.head ∙ loop.head;
  link = done.link;
  others = λ a ne. done.others a ne ∙ ap (λ h. h a) loop.answers.heap;
  bytes = λ a. done.bytes a ∙ ap (λ h. bytes_at h a) loop.answers.heap;
  blocks = done.blocks ∙ loop.answers.blocks;
  errno = done.errno ∙ loop.answers.errno;
  fewer = omega (arith, done.fewer, loop.answers.fewer);
}

abbrev LinkPost : Ends → World → Ptr → List Ptr → Ptr → Node × Ends → World → Type 0
LinkPost e w p qs f (t, e') v = Linked e w p qs f t e' v

-- What a round comes to: it links the fragment, or brings the end of the loop nearer.
link_once-Linking :
    (w : World) (e : Ends) (p : Ptr) (qs : List Ptr) (f : Ptr) (c : Cell)
    → IsLine (link_at w.heap) e p qs
    → Holds w.heap e.tail.frag c
    → Returns (Linking e w p qs f) (link_once f e w)
unfolding link_once
link_once-Linking w e p qs f c is at =
    let same : equals e.tail e.tail ≡ true = ground arith in
    rw (load-ok w at, same)
      (elim (Bool-cases (c.next.frag == null)) [
        | inl end ↦ rw end (link_here-Linking w e p qs f c is at (ground arith))
        | inr more ↦ rw more (
            Returns.mono
              (help_tail-Helped w e p qs c.next is (link_at-Holds w.heap e.tail.frag c at)
                (ground arith))
              λ (t, e') v (turn, help). rw turn (lost help))
      ])

module _ {e : Ends} {w : World} {p : Ptr} {qs : List Ptr} (f : Ptr) where
  Linking-Round :
      {s : Ends} {v : World}
      → Looping e w p qs s v
      → (r : Turn Node × Ends) (u : World) → Linking s v p qs f r u
      → Round
          (Looping e w p qs)
          (line_measure p qs)
          (LinkPost e w p qs f)
          (line_measure p qs s v)
          r
          u
  Linking-Round loop (again, s') u (lost help) = (Looping-Helped loop help, help.less)
  Linking-Round loop (leave t, s') u (won done) = Looping-Linked loop done

  link_loop-Linked :
      IsLine (link_at w.heap) e p qs
      → Returns (LinkPost e w p qs f) (repeat (link_once f) (suc (suc (length w.spurious))) e w)
  link_loop-Linked is =
      repeat_rule (Looping e w p qs) (line_measure p qs) (LinkPost e w p qs f) (link_once f)
        (λ s v loop.
          let line = subst (λ h. IsLine (link_at h) s p qs) (sym loop.answers.heap) loop.line in
          let (c, at) = tail_cell v s p qs line in
          Returns.mono (link_once-Linking v s p qs f c line at) (Linking-Round loop))
        (suc (suc (length w.spurious))) e w (ground arith)
        (record {
          line = is;
          head = refl;
          answers = record { heap = refl; blocks = refl; errno = refl; fewer = omega arith };
        })

-- `f` has gone to the end of the chain. Only the link of the last fragment has changed.
pub record Appended (e : Ends) (w : World) (p : Ptr) (qs : List Ptr) (f : Ptr) (e' : Ends)
    (v : World) : Type 0 where
  pub line : IsLine (link_at v.heap) e' p (qs ++ f ∷ [])
  pub others : (a : Ptr) → a ≢ last p qs → v.heap a ≡ w.heap a
  pub bytes : (a : Ptr) → bytes_at v.heap a ≡ bytes_at w.heap a
  pub blocks : v.blocks ≡ w.blocks
  pub errno : v.errno ≡ w.errno
  pub fewer : length v.spurious ≤ length w.spurious

module _ {e : Ends} {w : World} {p : Ptr} {qs : List Ptr} {f : Ptr}
    (is : IsLine (link_at w.heap) e p qs) (ne : f ≢ null) (out : f ∉ p ∷ qs)
    (end : link_at w.heap f ≡ some null) where
  Chain-Linked :
      {t : Node} {e' : Ends} {v : World}
      → Linked e w p qs f t e' v
      → Chain (link_at v.heap) p (qs ++ f ∷ [])
  Chain-Linked {v} done =
      Chain-append (link_at w.heap) (link_at v.heap) p qs f ne out
        (ap link_of (done.others f (mem_ne f (last p qs) (p ∷ qs) out (last-mem p qs))) ∙ end)
        done.link (λ a m other. ap link_of (done.others a other)) is.chain

  -- A line again, with the tail at either of the last two fragments.
  IsLine-Linked :
      {t : Node} {e' : Ends} {v : World} (e'' : Ends)
      → Linked e w p qs f t e' v
      → e''.head.frag ≡ p
      → (e''.tail.frag ≡ f) ⊎ (e''.tail.frag ≡ last p qs)
      → IsLine (link_at v.heap) e'' p (qs ++ f ∷ [])
  IsLine-Linked {v} e'' done first (inl new) = record {
    first = first;
    chain = Chain-Linked done;
    member =
        subst (λ x. x ∈ p ∷ (qs ++ f ∷ [])) (sym new)
          (ground (arith, has-append f (p ∷ qs) (f ∷ [])));
    lag = inl (new ∙ sym (last-append p qs f));
  }
  IsLine-Linked {v} e'' done first (inr old) = record {
    first = first;
    chain = Chain-Linked done;
    member =
        subst (λ x. x ∈ p ∷ (qs ++ f ∷ [])) (sym old)
          (ground (arith, has-append (last p qs) (p ∷ qs) (f ∷ []), last-mem p qs));
    lag = inr (ap (link_at v.heap) old ∙ done.link ∙ ap some (sym (last-append p qs f)));
  }

  -- The attempt to move the tail leaves a line whether it succeeds or not.
  cas_tail-Appended :
      (t : Node) (e' : Ends) (v : World)
      → Linked e w p qs f t e' v
      → Returns (Appended e w p qs f) (cas_tail e' t (node (inc32 t.count) f) v)
  unfolding cas_tail agree
  cas_tail-Appended t e' v done = returns (record {
    line = IsLine-Linked _ done (ground (arith, is.first)) (ground arith);
    others = done.others;
    bytes = done.bytes;
    blocks = done.blocks;
    errno = done.errno;
    fewer = omega (arith, length-tail_of v.spurious, done.fewer);
  })

  pub link_last-Appended : Returns (Appended e w p qs f) (link_last f e w)
  unfolding link_last
  link_last-Appended =
      Returns.bind (link_loop-Linked f is) λ (t, e') v done. cas_tail-Appended t e' v done
