-- ===== src/Heap/Returns.antt =====
-- Total correctness of a command: it ends with a result, without a fault and within its fuel, and
-- the result and the world it leaves satisfy a postcondition. The rules for binds and loops.
use coop_tasks.Base.{ℕ, zero, suc, ◌<◌, arith}
use coop_tasks.Heap.{World, Run, ok, Cmd, and_then, Turn, again, leave, after_turn, repeat}

pub data Returns {A : Type 0} (P : A → World → Type 0) : Run A → Type 0 where
  returns : {a : A} {w : World} → P a w → Returns P (ok a w)

module _ {A : Type 0} {P : A → World → Type 0} where
  pub bind :
      {B : Type 0} {Q : B → World → Type 0} {r : Run A} {k : A → Cmd B}
      → Returns P r
      → ((a : A) (w : World) → P a w → Returns Q (k a w))
      → Returns Q (and_then r k)
  bind (returns p) next = next _ _ p

  pub mono :
      {Q : A → World → Type 0} {r : Run A}
      → Returns P r
      → ((a : A) (w : World) → P a w → Q a w)
      → Returns Q r
  mono (returns p) weaken = returns (weaken _ _ p)

-- The result of such a run, and the world that it leaves.
pub outcome :
    {A : Type 0} {P : A → World → Type 0} {r : Run A} → Returns P r → (a : A) × (w : World) × P a w
outcome (returns p) = (_, _, p)

-- One round of a loop keeps the invariant and lowers the measure, or leaves with the result.
abbrev pub Round :
    {S A : Type 0}
    → (S → World → Type 0)
    → (S → World → ℕ)
    → (A × S → World → Type 0)
    → ℕ
    → Turn A × S
    → World
    → Type 0
Round Inv measure Post before (again, s) w = Inv s w × (measure s w < before)
Round Inv measure Post before (leave a, s) w = Post (a, s) w

module _ {S A : Type 0} (Inv : S → World → Type 0) (measure : S → World → ℕ)
    (Post : A × S → World → Type 0) (body : S → Cmd (Turn A × S))
    (turn : (s : S) (w : World)
      → Inv s w
      → Returns (Round Inv measure Post (measure s w)) (body s w)) where
  after_turn-Returns :
      {k : ℕ} (s : S) (w : World)
      → ((s' : S) (w' : World) → measure s' w' < k → Inv s' w' → Returns Post (repeat body k s' w'))
      → measure s w < suc k
      → (t : Turn A × S) (w' : World) → Round Inv measure Post (measure s w) t w'
      → Returns Post (after_turn (repeat body k) t w')
  after_turn-Returns s w rest fuel (again, s') w' (inv, less) = rest s' w' (omega arith) inv
  after_turn-Returns s w rest fuel (leave a, s') w' post = returns post

  -- The loop `repeat` ends with its postcondition if the fuel is above the measure.
  pub repeat_rule :
      (k : ℕ) (s : S) (w : World) → measure s w < k → Inv s w → Returns Post (repeat body k s w)
  unfolding repeat
  repeat_rule zero s w fuel inv = elim fuel [ ]
  repeat_rule (suc k) s w fuel inv =
      bind (turn s w inv) (after_turn-Returns s w (repeat_rule k) fuel)
