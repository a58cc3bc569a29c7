-- ===== src/Msq/Help.antt =====
-- Rounds that only move the tail on, and what a loop keeps between its rounds.
use coop_tasks.Base.{
  ℕ, ◌+◌, ◌<◌, ◌≤◌, ◌≡◌, ◌≢◌, inl, inr, refl, sym, subst, ◌∙◌, some, List, ◌∷◌, arith, ◌∈◌, ◌==◌,
  if◌then◌else◌, length, Bool-cases,
}
use coop_tasks.Heap.{Ptr, null, Node, Cell, World, head_or, Turn, again}
use coop_tasks.Heap.Chain.{Links, link_at, last, last-mem, link-last, mem-link, mem-ne_null}
use coop_tasks.Heap.Access.{
  Holds, Holds-of_link, length-tail_of, length-tail_of-lt, agree-lost, agree-won,
}
use coop_tasks.Heap.Returns.{Returns, returns}
use coop_tasks.Msq.Defs.{Ends, cas_tail, help_tail}
use coop_tasks.Msq.Line.{IsLine}

-- `v` is `w` with fewer answers left.
pub record OnlyAnswers (w v : World) : Type 0 where
  pub heap : v.heap ≡ w.heap
  pub blocks : v.blocks ≡ w.blocks
  pub errno : v.errno ≡ w.errno
  pub fewer : length v.spurious ≤ length w.spurious

-- The tail is not at the end of the chain.
abbrev pub behind : Ends → Ptr → ℕ
behind e l = if e.tail.frag == l then 0 else 1

pub record Helped (e : Ends) (w : World) (p : Ptr) (qs : List Ptr) (e' : Ends) (v : World)
    : Type 0 where
  pub line : IsLine (link_at w.heap) e' p qs
  pub answers : OnlyAnswers w v
  pub head : e'.head ≡ e.head
  pub less : length v.spurious + behind e' (last p qs) < length w.spurious + behind e (last p qs)

pub tail_cell :
    (w : World) (e : Ends) (p : Ptr) (qs : List Ptr)
    → IsLine (link_at w.heap) e p qs
    → (c : Cell) × Holds w.heap e.tail.frag c
tail_cell w e p qs is =
    let (q, link) = mem-link (link_at w.heap) p qs e.tail.frag is.chain is.member in
    let ne = mem-ne_null (link_at w.heap) p qs e.tail.frag is.chain is.member in
    let (c, at, _) = Holds-of_link w.heap e.tail.frag q ne link in (c, at)

-- The tail is at the end, or its link leads there.
pub lag-next :
    (l : Links) (e : Ends) (p : Ptr) (qs : List Ptr) (q : Ptr)
    → IsLine l e p qs
    → l e.tail.frag ≡ some q
    → q ≢ null
    → (q ≡ last p qs) × (e.tail.frag ≢ last p qs)
lag-next l e p qs q is link ne = ground (arith, is.lag, link-last l p qs is.chain)

-- A tail whose link is empty is at the end.
pub lag-end :
    (l : Links) (e : Ends) (p : Ptr) (qs : List Ptr)
    → IsLine l e p qs
    → l e.tail.frag ≡ some null
    → e.tail.frag ≡ last p qs
lag-end l e p qs is link =
    ground (arith, is.lag, mem-ne_null l p qs (last p qs) is.chain (last-mem p qs))

pub help_tail-Helped :
    {A : Type 0} (w : World) (e : Ends) (p : Ptr) (qs : List Ptr) (n : Node)
    → IsLine (link_at w.heap) e p qs
    → link_at w.heap e.tail.frag ≡ some n.frag
    → n.frag ≢ null
    → Returns {A = Turn A × Ends}
        (λ (t, e') v. (t ≡ again) × Helped e w p qs e' v)
        (help_tail e e.tail n w)
unfolding help_tail cas_tail
help_tail-Helped w e p qs n is link ne =
    let (end, lags) = lag-next (link_at w.heap) e p qs n.frag is link ne in
    elim (Bool-cases (head_or w.spurious)) [
      | inl lost ↦ rw (agree-lost w e.tail e.tail lost) (
          returns (
            refl,
            record {
              line = is;
              answers = record {
                heap = refl;
                blocks = refl;
                errno = refl;
                fewer = length-tail_of w.spurious;
              };
              head = refl;
              less = omega (arith, length-tail_of-lt w.spurious lost);
            },
          ))
      | inr won ↦ rw (agree-won w e.tail won) (
          returns (
            refl,
            record {
              line = record {
                first = is.first;
                chain = is.chain;
                member = subst (λ x. x ∈ p ∷ qs) (sym end) (last-mem p qs);
                lag = inl end;
              };
              answers = record {
                heap = refl;
                blocks = refl;
                errno = refl;
                fewer = length-tail_of w.spurious;
              };
              head = refl;
              less = ground (arith, length-tail_of w.spurious);
            },
          ))
    ]

abbrev pub line_measure : Ptr → List Ptr → Ends → World → ℕ
line_measure p qs e w = length w.spurious + behind e (last p qs)

-- What holds between the rounds of a loop that started in `e` and `w`.
pub record Looping (e : Ends) (w : World) (p : Ptr) (qs : List Ptr) (s : Ends) (v : World)
    : Type 0 where
  pub line : IsLine (link_at w.heap) s p qs
  pub head : s.head ≡ e.head
  pub answers : OnlyAnswers w v

pub Looping-Helped :
    {e s t : Ends} {w v u : World} {p : Ptr} {qs : List Ptr}
    → Looping e w p qs s v
    → Helped s v p qs t u
    → Looping e w p qs t u
Looping-Helped {t} {w} {p} {qs} loop help = record {
  line = subst (λ h. IsLine (link_at h) t p qs) loop.answers.heap help.line;
  head = help.head ∙ loop.head;
  answers = record {
    heap = help.answers.heap ∙ loop.answers.heap;
    blocks = help.answers.blocks ∙ loop.answers.blocks;
    errno = help.answers.errno ∙ loop.answers.errno;
    fewer = omega (arith, help.answers.fewer, loop.answers.fewer);
  };
}
