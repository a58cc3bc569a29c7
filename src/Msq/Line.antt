-- ===== src/Msq/Line.antt =====
-- What head and tail stand for: a chain of fragments, with the tail at its end or one behind it.
use coop_tasks.Base.{◌≡◌, ◌⊎◌, some, List, ◌∷◌, arith, ◌∈◌}
use coop_tasks.Heap.{Ptr, World}
use coop_tasks.Heap.Chain.{Links, Chain, bytes_at, last, Chain-frame}
use coop_tasks.Msq.Defs.{Ends}

-- `p` is the dummy in front, `qs` are the fragments that can be taken.
pub record IsLine (l : Links) (e : Ends) (p : Ptr) (qs : List Ptr) : Type 0 where
  pub first : e.head.frag ≡ p
  pub chain : Chain l p qs
  pub member : e.tail.frag ∈ p ∷ qs
  pub lag : (e.tail.frag ≡ last p qs) ⊎ (l e.tail.frag ≡ some (last p qs))

-- `v` differs from `w` at most in the links of fragments, and in the answers that are used up.
pub record SameBytes (w v : World) : Type 0 where
  pub bytes : (a : Ptr) → bytes_at v.heap a ≡ bytes_at w.heap a
  pub blocks : v.blocks ≡ w.blocks

pub IsLine-frame :
    (l l' : Links) (e : Ends) (p : Ptr) (qs : List Ptr)
    → ((a : Ptr) → a ∈ p ∷ qs → l' a ≡ l a)
    → IsLine l e p qs
    → IsLine l' e p qs
IsLine-frame l l' e p qs same is = record {
  first = is.first;
  chain = Chain-frame l l' p qs same is.chain;
  member = is.member;
  lag = ground (arith, same e.tail.frag, is.lag);
}
