-- ===== src/Msq/Unlink.antt =====
-- `unlink_first` takes the first fragment off, or finds that there is none.
use coop_tasks.Base.{
  ℕ, suc, ◌≡◌, ◌≢◌, inl, inr, refl, sym, ap, subst, ◌∙◌, true, false, Option, none, some, List, [],
  ◌∷◌, arith, ◌==◌, if◌then◌else◌, inc32, length, Bool-cases,
}
use coop_tasks.Heap.{
  Ptr, null, node, equals, Cell, Heap, World, ok, pure, Cmd, head_or, Turn, again, leave, repeat,
  and_then,
}
use coop_tasks.Heap.Chain.{link_at, Chain-ne_null}
use coop_tasks.Heap.Access.{
  Holds, Holds-of_link, load-ok, length-tail_of, length-tail_of-lt, agree-lost, agree-won,
  link_at-Holds,
}
use coop_tasks.Heap.Returns
use coop_tasks.Heap.Returns.{Returns, returns, Round, repeat_rule, bind}
use coop_tasks.Msq.Defs.{Ends, cas_head, give_up, take_first, unlink_once, unlink_first}
use coop_tasks.Msq.Line.{IsLine}
use coop_tasks.Msq.Help.{
  OnlyAnswers, Helped, help_tail-Helped, line_measure, Looping, Looping-Helped,
}

module _ {B : Type 0} (P Q : B → Type 0) where
  -- The first fragment `p` has been taken off; the one behind it, `q`, is the new dummy.
  pub record Taken (w : World) (q : Ptr) (qs : List Ptr) (s : Ends × B) (v : World) : Type 0 where
    pub line : IsLine (link_at w.heap) s.0 q qs
    pub value : P s.1
    pub answers : OnlyAnswers w v

  -- What a round may come to on a line that holds a fragment.
  data Taking (e : Ends) (w : World) (p q : Ptr) (qs : List Ptr)
      : Turn (Option Ptr) × (Ends × B) → World → Type 0 where
    lost :
        {e' : Ends} {b : B} {v : World}
        → Helped e w p (q ∷ qs) e' v
        → Q b
        → Taking e w p q qs (again, (e', b)) v
    won :
        {o : Option Ptr} {s : Ends × B} {v : World}
        → o ≡ some p
        → Taken w q qs s v
        → Taking e w p q qs (leave o, s) v

-- What `peek` does: it changes nothing, and brings about `P`, from `Q`, which it keeps.
abbrev pub Peeks : {B : Type 0} → (P Q : B → Type 0) → (Ptr → B → Cmd B) → Heap → Ptr → Type 0
Peeks {B} P Q peek h q =
    (b : B) (w : World) → w.heap ≡ h → Q b → Returns (λ b' v. (v ≡ w) × P b' × Q b') (peek q b w)

module _ {B : Type 0} {P Q : B → Type 0} (error : ℕ) (peek : Ptr → B → Cmd B) {w : World} (e : Ends)
    {p q : Ptr} {qs : List Ptr} (is : IsLine (link_at w.heap) e p (q ∷ qs)) where
  take_first-Taking :
      (b : B)
      → e.tail.frag ≢ p
      → P b
      → Q b
      → Returns (Taking P Q e w p q qs) (
          and_then
            (cas_head e e.head (node (inc32 e.head.count) q) w)
            (λ (done, e'). pure (if done then leave (some e.head.frag) else again, (e', b))))
  unfolding cas_head
  take_first-Taking b ne value keep = elim (Bool-cases (head_or w.spurious)) [
    | inl failed ↦ rw (agree-lost w e.head e.head failed) (
        returns (
          lost
            (record {
              line = is;
              answers = record {
                heap = refl;
                blocks = refl;
                errno = refl;
                fewer = length-tail_of w.spurious;
              };
              head = refl;
              less = omega (arith, length-tail_of-lt w.spurious failed);
            })
            keep))
    | inr succeeded ↦ rw (agree-won w e.head succeeded) (
        returns (
          won (ap some is.first) (record {
            line = record {
              first = refl;
              chain = is.chain.3;
              member = ground (arith, is.member);
              lag = is.lag;
            };
            value = value;
            answers = record {
              heap = refl;
              blocks = refl;
              errno = refl;
              fewer = length-tail_of w.spurious;
            };
          })))
  ]

  -- A round on a line that holds a fragment.
  unlink_once-Taking :
      (c : Cell) (b : B)
      → Holds w.heap p c
      → c.next.frag ≡ q
      → Peeks P Q peek w.heap q
      → Q b
      → Returns (Taking P Q e w p q qs) (unlink_once error peek (e, b) w)
  unfolding unlink_once take_first
  unlink_once-Taking c b at next peeks keep =
      let same : equals e.head e.head ≡ true = ground arith in
      let at' : Holds w.heap e.head.frag c = subst (λ a. Holds w.heap a c) (sym is.first) at in
      rw (load-ok w at', same)
        (elim (Bool-cases (e.head.frag == e.tail.frag)) [
          | inl lags ↦
              let ne : c.next.frag ≢ null =
                subst (λ a. a ≢ null) (sym next) (Chain-ne_null (link_at w.heap) q qs is.chain.3) in
              let more : (c.next.frag == null) ≡ false = ground arith in
              let link : link_at w.heap e.tail.frag ≡ some c.next.frag =
                ground (arith, is.first, link_at-Holds w.heap p c at) in
              rw (lags, more)
                (Returns.bind (help_tail-Helped w e p (q ∷ qs) c.next is link ne)
                  λ (t, e') v (turn, help). rw turn (returns (lost help keep)))
          | inr apart ↦
              rw (apart, next)
                (Returns.bind (peeks b w refl keep) λ b' v (same_world, value, kept).
                  rw same_world (take_first-Taking b' (ground (arith, is.first)) value kept))
        ])

-- What the loop ends with: `p` has been taken.
abbrev pub TakePost :
    {B : Type 0}
    → (P Q : B → Type 0) → World
    → (p q : Ptr) → List Ptr
    → Option Ptr × (Ends × B)
    → World
    → Type 0
TakePost P Q w p q qs (o, s) v = (o ≡ some p) × Taken P Q w q qs s v

module _ {B : Type 0} {P Q : B → Type 0} (error : ℕ) (peek : Ptr → B → Cmd B) (w : World) (e : Ends)
    {p q : Ptr} {qs : List Ptr} (b : B) (is : IsLine (link_at w.heap) e p (q ∷ qs))
    (peeks : Peeks P Q peek w.heap q) where
  -- What a loop keeps.
  abbrev Loop : Ends × B → World → Type 0
  Loop (s, c) v = Looping e w p (q ∷ qs) s v × Q c

  abbrev loop_measure : Ends × B → World → ℕ
  loop_measure (s, c) = line_measure p (q ∷ qs) s

  Taking-Round :
      {s : Ends} {v : World}
      → Looping e w p (q ∷ qs) s v
      → (r : Turn (Option Ptr) × (Ends × B)) (u : World) → Taking P Q s v p q qs r u
      → Round Loop loop_measure (TakePost P Q w p q qs) (line_measure p (q ∷ qs) s v) r u
  Taking-Round loop (again, s') u (lost help keep) = ((Looping-Helped loop help, keep), help.less)
  Taking-Round loop (leave o, s') u (won got taken) = (
    got,
    record {
      line = subst (λ h. IsLine (link_at h) s'.0 q qs) loop.answers.heap taken.line;
      value = taken.value;
      answers = record {
        heap = taken.answers.heap ∙ loop.answers.heap;
        blocks = taken.answers.blocks ∙ loop.answers.blocks;
        errno = taken.answers.errno ∙ loop.answers.errno;
        fewer = omega (arith, taken.answers.fewer, loop.answers.fewer);
      };
    },
  )

  unlink-Loop-Round :
      (s : Ends × B) (v : World)
      → Loop s v
      → Returns
          (Round Loop loop_measure (TakePost P Q w p q qs) (loop_measure s v))
          (unlink_once error peek s v)
  unlink-Loop-Round (s, c) v (loop, keep) =
      let h = loop.answers.heap in
      let line = subst (λ g. IsLine (link_at g) s p (q ∷ qs)) (sym h) loop.line in
      let (d, at, next) = Holds-of_link v.heap p q line.chain.0 line.chain.1 in
      Returns.mono
        (unlink_once-Taking error peek s line d c at next (λ b' u same. peeks b' u (same ∙ h)) keep)
        (Taking-Round loop)

  -- On a line that holds a fragment, its first one is taken.
  pub unlink_first-Taken : Q b → Returns (TakePost P Q w p q qs) (unlink_first error peek (e, b) w)
  unfolding unlink_first
  unlink_first-Taken keep =
      repeat_rule Loop loop_measure (TakePost P Q w p q qs) (unlink_once error peek)
        unlink-Loop-Round (suc (suc (length w.spurious))) (e, b) w (ground arith)
        (
          record {
            line = is;
            head = refl;
            answers = record { heap = refl; blocks = refl; errno = refl; fewer = omega arith };
          },
          keep,
        )

-- On a line that holds none, there is an error and nothing changes.
pub unlink_first-empty :
    {B : Type 0} (error : ℕ) (peek : Ptr → B → Cmd B) (w : World) (e : Ends) (p : Ptr) (b : B)
    → IsLine (link_at w.heap) e p []
    → unlink_first error peek (e, b) w ≡ ok (none, (e, b)) (record w { errno = error })
unfolding unlink_first repeat unlink_once give_up
unlink_first-empty error peek w e p b is =
    let (c, at, next) = Holds-of_link w.heap p null is.chain.0 is.chain.1 in
    let at' : Holds w.heap e.head.frag c = subst (λ a. Holds w.heap a c) (sym is.first) at in
    let same : equals e.head e.head ≡ true = ground arith in
    let together : (e.head.frag == e.tail.frag) ≡ true = ground (arith, is.first, is.member) in
    let end : (c.next.frag == null) ≡ true = ground arith in rw (load-ok w at', same, together, end)
