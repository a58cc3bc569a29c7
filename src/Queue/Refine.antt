-- ===== src/Queue/Refine.antt =====
-- What a queue promises: a bounded queue of items. Every sequence of calls on a queue of
-- src/collections.c gives the results of that specification.
use coop_tasks.Base.{
  ℕ, ◌+◌, ◌≤◌, ◌≡◌, refl, ap, subst, ◌∙◌, true, false, Option, none, some, List, [], ◌∷◌, ◌++◌,
  arith, ltb, if◌then◌else◌, length, take,
}
use coop_tasks.Heap.{Ptr, World, Cmd, pure, enomem, enoent, ◌>>=◌}
use coop_tasks.Heap.Returns
use coop_tasks.Heap.Returns.{Returns, returns}
use coop_tasks.Mempool.{Status, success, failure}
use coop_tasks.Queue.Defs.{Queue, Bytes, queue_enqueue, queue_dequeue}
use coop_tasks.Queue.Inv.{IsQueue, Represents, length-Stored, IsQueue-errno}
use coop_tasks.Queue.Enqueue.{enqueue-Enqueued, enqueue-full}
use coop_tasks.Queue.Dequeue.{dequeue-Dequeued, dequeue-empty}

-- A call, with the bytes at `val` (a buffer to fill, for `dequeue`), and its result.
pub data Call : Type 0 where
  enqueue : List ℕ → Call
  dequeue : List ℕ → Call

pub data Answer : Type 0 where
  done : Answer
  full : Answer
  empty : Answer
  item : List ℕ → Answer

-- The specification: at most `capacity` items of `n` bytes, first in first out.
unfoldable pub spec_call : ℕ → ℕ → Call → List (List ℕ) → Answer × List (List ℕ)
spec_call n capacity (enqueue val) items =
    if ltb (length items) capacity then (done, items ++ take n val ∷ []) else (full, items)
spec_call n capacity (dequeue val) [] = (empty, [])
spec_call n capacity (dequeue val) (x ∷ items) = (item x, items)

unfoldable pub spec_run : ℕ → ℕ → List Call → List (List ℕ) → List Answer × List (List ℕ)
spec_run n capacity [] items = ([], items)
spec_run n capacity (c ∷ cs) items =
    let (a, items') = spec_call n capacity c items in
    let (as_, items'') = spec_run n capacity cs items' in (a ∷ as_, items'')

abbrev enqueue_answer : Status × Option Queue → Answer
enqueue_answer (success, o) = done
enqueue_answer (failure, o) = full

abbrev front : ℕ → Bytes → List ℕ
front n none = []
front n (some val) = take n val

abbrev dequeue_answer : ℕ → Status × Option Queue × Bytes → Answer
dequeue_answer n (success, o, b) = item (front n b)
dequeue_answer n (failure, o, b) = empty

-- The code: what the caller sees of a call, and of a sequence of calls.
unfoldable pub code_call : ℕ → Call → Option Queue → Cmd (Answer × Option Queue)
code_call n (enqueue val) q = do
  (s, q') ← queue_enqueue q (some val)
  pure (enqueue_answer (s, q'), q')
code_call n (dequeue val) q = do
  (s, q', b) ← queue_dequeue q (some val)
  pure (dequeue_answer n (s, q', b), q')

unfoldable pub code_run : ℕ → List Call → Option Queue → Cmd (List Answer × Option Queue)
code_run n [] q = pure ([], q)
code_run n (c ∷ cs) q = do
  (a, q') ← code_call n c q
  (as_, q'') ← code_run n cs q'
  pure (a ∷ as_, q'')

-- Each call passes bytes for a whole item.
abbrev pub LongCall : ℕ → Call → Type 0
LongCall n (enqueue val) = n ≤ length val
LongCall n (dequeue val) = n ≤ length val

abbrev pub LongCalls : ℕ → List Call → Type 0
LongCalls n [] = Unit {0}
LongCalls n (c ∷ cs) = LongCall n c × LongCalls n cs

-- The code gave the answer of the specification, and represents its items.
abbrev pub Agrees : {A : Type 0} → ℕ → ℕ → A × List (List ℕ) → A × Option Queue → World → Type 0
Agrees n capacity (a, items) (b, o) v =
    (q : Queue) × (o ≡ some q) × (b ≡ a) × Represents v q n capacity items

-- The number of free fragments is the room that is left.
pub room_left :
    {w : World} {self : Queue} {d : Ptr} {vs : List Ptr} {p : Ptr} {free out : List Ptr}
    {items : List (List ℕ)} (capacity : ℕ)
    → IsQueue w self d vs p free out items
    → self.pool.capacity ≡ capacity + 1
    → length free + length items ≡ capacity
room_left {w} {self} {vs} {items} capacity is room =
    omega
      (arith, is.pool.count, is.used_count, length-Stored w.heap self.val_bytes vs items is.stored)

pub represents :
    {w : World} {self : Queue} {d : Ptr} {vs : List Ptr} {p : Ptr} {free out : List Ptr}
    {n capacity : ℕ} {items : List (List ℕ)}
    → IsQueue w self d vs p free out items
    → self.val_bytes ≡ n
    → self.pool.capacity ≡ capacity + 1
    → Represents w self n capacity items
represents {d} {vs} {p} {free} {out} is size room = record {
  dummy = d;
  values = vs;
  first_free = p;
  free = free;
  out = out;
  is = is;
  size = size;
  room = room;
}

module _ {w : World} {self : Queue} {n capacity : ℕ} where
  enqueue-Agrees :
      {d : Ptr} {vs : List Ptr} {p : Ptr} (free : List Ptr) {out : List Ptr} {items : List (List ℕ)}
      (val : List ℕ)
      → IsQueue w self d vs p free out items
      → self.val_bytes ≡ n
      → self.pool.capacity ≡ capacity + 1
      → n ≤ length val
      → Returns
          (Agrees n capacity (spec_call n capacity (enqueue val) items))
          (code_call n (enqueue val) (some self) w)
  unfolding code_call spec_call
  enqueue-Agrees [] {items} val is size room long =
      let no_room : ltb (length items) capacity ≡ false =
        ground (arith, room_left capacity is room) in
      rw (no_room, enqueue-full {self = self} val is)
        (returns (self, refl, refl, represents (IsQueue-errno enomem is) size room))
  enqueue-Agrees {d} {vs} {p} (q ∷ free) {out} {items} val is size room long =
      let has_room : ltb (length items) capacity ≡ true =
        ground (arith, room_left capacity is room) in
      rw has_room (
        Returns.bind (enqueue-Enqueued val is (omega arith)) λ (s, o) v (self', made, e).
          rw (e.status, made)
            (returns (
              self',
              refl,
              refl,
              represents
                  (subst
                    (λ k.
                      IsQueue v self' d (vs ++ p ∷ []) q free (p ∷ out) (items ++ take k val ∷ []))
                    size e.is)
                  (e.size ∙ size) (e.capacity ∙ room),
            )))

  dequeue-Agrees :
      {d : Ptr} (vs : List Ptr) {p : Ptr} {free : List Ptr} {out : List Ptr} (items : List (List ℕ))
      (val : List ℕ)
      → IsQueue w self d vs p free out items
      → self.val_bytes ≡ n
      → self.pool.capacity ≡ capacity + 1
      → n ≤ length val
      → Returns
          (Agrees n capacity (spec_call n capacity (dequeue val) items))
          (code_call n (dequeue val) (some self) w)
  unfolding code_call spec_call
  dequeue-Agrees [] [] val is size room long =
      rw (dequeue-empty {self = self} (some val) is)
        (returns (self, refl, refl, represents (IsQueue-errno enoent is) size room))
  dequeue-Agrees [] (y ∷ items) val is size room long = absurd is.stored
  dequeue-Agrees (x ∷ vs) [] val is size room long = absurd is.stored
  dequeue-Agrees (x ∷ vs) (y ∷ items) val is size room long =
      Returns.bind (dequeue-Dequeued (some val) is (omega arith)) λ (s, o, b) v (self', made, e).
        let (got, at, front_is, _) = e.received in
        rw (e.status, made, at)
          (returns (
            self',
            refl,
            ap item (subst (λ k. take k got ≡ y) size front_is),
            represents e.is (e.size ∙ size) (e.capacity ∙ room),
          ))

  pub code_call-Agrees :
      (c : Call) {items : List (List ℕ)}
      → Represents w self n capacity items
      → LongCall n c
      → Returns (Agrees n capacity (spec_call n capacity c items)) (code_call n c (some self) w)
  code_call-Agrees (enqueue val) r long = enqueue-Agrees r.free val r.is r.size r.room long
  code_call-Agrees (dequeue val) {items} r long =
      dequeue-Agrees r.values items val r.is r.size r.room long

-- On a queue that holds the items `items` of the specification, with room for `capacity` items of
-- `n` bytes, every sequence of calls that each pass a buffer of `n` bytes or more ends, without a
-- fault and within its fuel, with the answers of the bounded first-in first-out queue, and the
-- queue then holds the specification's items; whatever compare-exchanges fail spuriously.
pub code_run-Agrees :
    (cs : List Call) {w : World} {self : Queue} {n capacity : ℕ} {items : List (List ℕ)}
    → Represents w self n capacity items
    → LongCalls n cs
    → Returns (Agrees n capacity (spec_run n capacity cs items)) (code_run n cs (some self) w)
unfolding code_run spec_run
code_run-Agrees [] {self} r long = returns (self, refl, refl, r)
code_run-Agrees (c ∷ cs) {n} {capacity} {items} r (long, longs) =
    Returns.bind (code_call-Agrees c r long) λ (a, o) v (self', made, same, r').
      rw (made, same)
        (Returns.bind (code_run-Agrees cs r' longs) λ (as_, o') u (self'', made', same', r'').
          returns (self'', made', ap (◌∷◌ ((spec_call n capacity c items).0)) same', r''))
