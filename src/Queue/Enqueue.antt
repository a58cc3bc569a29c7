-- ===== src/Queue/Enqueue.antt =====
-- `queue_enqueue` puts an item behind the others, or reports a full queue.
use coop_tasks.Base.{
  ℕ, ◌≤◌, ◌≡◌, ◌≢◌, refl, sym, ap, subst, ◌∙◌, Bool, true, false, ◌||◌, Option, some, List, [], ◌∷◌,
  ◌++◌, arith, ◌==◌, length, take, drop, has, has-append, ◌∈◌, ◌∉◌, inl, inr, Bool-cases,
  take-append, length-take-drop, length-append,
}
use coop_tasks.Heap.{Ptr, null, World, ok, enomem}
use coop_tasks.Heap.Access.{Holds-of_bytes, bytes_at-Holds}
use coop_tasks.Heap.Chain.{link_at, bytes_at, link_of, bytes_of, last, last-mem}
use coop_tasks.Heap.Returns
use coop_tasks.Heap.Returns.{Returns, returns}
use coop_tasks.Msq.{Ends, IsLine, IsLine-frame, Appended, link_last-Appended}
use coop_tasks.Mempool.{Status, success, failure, IsPool, IsPool-frame}
use coop_tasks.Queue.Defs.{Queue, enqueue_value, queue_enqueue}
use coop_tasks.Queue.Inv.{Stored, IsQueue, Stored-frame, Stored-append}
use coop_tasks.Queue.Value.{ValueMade, alloc_value-ValueMade, alloc_value-empty}

-- The addresses of a queue: the fragments of its pool, free or in use.
abbrev pub owns : Ptr → List Ptr → List Ptr → Ptr → Bool
owns p free out a = has a (p ∷ free) || has a out

-- The item went to the end; `p` is the fragment that holds it.
pub record Enqueued (w : World) (self : Queue) (d : Ptr) (vs : List Ptr) (p q : Ptr)
    (free out : List Ptr) (items : List (List ℕ)) (val : List ℕ) (r : Status × Queue) (v : World)
    : Type 0 where
  pub status : r.0 ≡ success
  pub is : IsQueue v r.1 d (vs ++ p ∷ []) q free (p ∷ out) (items ++ take self.val_bytes val ∷ [])
  pub size : r.1.val_bytes ≡ self.val_bytes
  pub capacity : r.1.pool.capacity ≡ self.pool.capacity
  pub others : (a : Ptr) → owns p (q ∷ free) out a ≡ false → v.heap a ≡ w.heap a
  pub blocks : v.blocks ≡ w.blocks
  pub errno : v.errno ≡ w.errno

module _ {w : World} {self : Queue} {d : Ptr} {vs : List Ptr} {p q : Ptr} {free out : List Ptr}
    {items : List (List ℕ)} (is : IsQueue w self d vs p (q ∷ free) out items) (val : List ℕ)
    (long : self.val_bytes ≤ length val) where
  not_used : (a : Ptr) → a ∈ d ∷ vs → a ≢ p
  not_used a m = ground (arith, is.used a, is.pool.apart a)

  new_out : p ∉ d ∷ vs
  new_out = ground (arith, is.used p, is.pool.apart p)

  last_used : has (last d vs) out ≡ true
  last_used = is.used (last d vs) ∙ last-mem d vs

  module _ {r : Ptr × Queue} {u : World} (made : ValueMade w self p q free out (some val) r u) where
    IsLine-ValueMade : IsLine (link_at u.heap) r.1.ends d vs
    IsLine-ValueMade =
        subst (λ e. IsLine (link_at u.heap) e d vs) (sym made.ends)
          (IsLine-frame (link_at w.heap) (link_at u.heap) self.ends d vs
            (λ a m. ap link_of (made.others a (not_used a m))) is.line)

    module _ {e : Ends} {v : World} (done : Appended r.1.ends u d vs p e v) where
      free-IsPool : IsPool v r.1.pool q free (p ∷ out)
      free-IsPool =
          IsPool-frame u v made.pool
            (λ a m.
              ap link_of (done.others a (ground (arith, made.pool.apart (last d vs), last_used))))
            (λ a m.
              let (c, at) = made.pool.cells a m in
              Holds-of_bytes v.heap a c.bytes at.ne_null
                (done.bytes a ∙ bytes_at-Holds u.heap a c at))

      old_bytes : (a : Ptr) → a ≢ p → bytes_at v.heap a ≡ bytes_at w.heap a
      old_bytes a ne = done.bytes a ∙ ap bytes_of (made.others a ne)

      new_bytes : bytes_at v.heap p ≡ some (take self.val_bytes val ++ drop self.val_bytes made.old)
      new_bytes = done.bytes p ∙ made.bytes

      new-Stored :
          Stored v.heap r.1.val_bytes (vs ++ p ∷ []) (items ++ take self.val_bytes val ∷ [])
      new-Stored =
          subst (λ n. Stored v.heap n (vs ++ p ∷ []) (items ++ take self.val_bytes val ∷ []))
            (sym made.size)
            (subst (λ x. Stored v.heap self.val_bytes (vs ++ p ∷ []) (items ++ x ∷ []))
              (take-append self.val_bytes val _ long)
              (Stored-append v.heap self.val_bytes vs items p _
                (Stored-frame w.heap v.heap self.val_bytes vs items
                  (λ a m. old_bytes a (not_used a (ground arith))) is.stored)
                new_bytes))

      new_room :
          (a : Ptr) (b : List ℕ)
          → owns q free (p ∷ out) a ≡ true
          → bytes_at v.heap a ≡ some b
          → r.1.val_bytes ≤ length b
      new_room a b m e = elim (Bool-cases (a == p)) [
        | inl here ↦
            let at : a ≡ p = ground arith in
            let eq : some b ≡ some (take self.val_bytes val ++ drop self.val_bytes made.old) =
              sym e ∙ ap (bytes_at v.heap) at ∙ new_bytes in
            let same : b ≡ take self.val_bytes val ++ drop self.val_bytes made.old = cc in
            let old_room = is.room p made.old (ground arith) made.was in
            omega (
              arith,
              made.size,
              old_room,
              ap length same,
              length-take-drop self.val_bytes val made.old long old_room,
            )
        | inr other ↦
            let same = sym (old_bytes a (ground arith)) ∙ e in
            omega (arith, is.room a b (ground arith) same, made.size)
      ]

      Appended-Enqueued :
          Enqueued w self d vs p q free out items val (success, record r.1 { ends = e }) v
      Appended-Enqueued = record {
        status = refl;
        is = record {
          pool = free-IsPool;
          line = done.line;
          used = λ a. ground (arith, is.used a, has-append a (d ∷ vs) (p ∷ []));
          used_count = omega (arith, is.used_count, length-append vs (p ∷ []));
          stored = new-Stored;
          room = new_room;
        };
        size = made.size;
        capacity = made.config.capacity;
        others = λ a o. done.others a (ground (arith, last_used)) ∙ made.others a (ground arith);
        blocks = done.blocks ∙ made.blocks;
        errno = done.errno ∙ made.errno;
      }

  pub enqueue_value-Enqueued :
      Returns (Enqueued w self d vs p q free out items val) (enqueue_value self val w)
  unfolding enqueue_value
  enqueue_value-Enqueued =
      Returns.bind
        (alloc_value-ValueMade (some val) is.pool long (λ b e. is.room p b (ground arith) e))
        λ r u made.
          let ne : (r.0 == null) ≡ false = ground (arith, made.got, made.ne_null) in
          rw (ne, made.got)
            (Returns.bind
              (link_last-Appended (IsLine-ValueMade made) made.ne_null new_out made.link)
              λ e v done. returns (Appended-Enqueued made done))

-- With every fragment in use the call fails, and nothing but the error number changes.
pub enqueue_value-full :
    {w : World} {self : Queue} {d : Ptr} {vs : List Ptr} {p : Ptr} {out : List Ptr}
    {items : List (List ℕ)} (val : List ℕ)
    → IsQueue w self d vs p [] out items
    → enqueue_value self val w ≡ ok (failure, self) (record w { errno = enomem })
unfolding enqueue_value
enqueue_value-full {self} val is = rw (alloc_value-empty {self = self} (some val) is.pool)

abbrev pub EnqueuePost :
    World
    → Queue
    → Ptr
    → List Ptr
    → (p q : Ptr) → (free out : List Ptr) → List (List ℕ)
    → List ℕ
    → Status × Option Queue
    → World
    → Type 0
EnqueuePost w self d vs p q free out items val (s, o) v =
    (self' : Queue) × (o ≡ some self') × Enqueued w self d vs p q free out items val (s, self') v

module _ {w : World} {self : Queue} {d : Ptr} {vs : List Ptr} {p : Ptr} {out : List Ptr}
    {items : List (List ℕ)} (val : List ℕ) where
  -- On a queue with a free fragment behind the next one, and with a whole item at `val`,
  -- `queue_enqueue` succeeds: the queue is well formed with the item behind the others, in the
  -- fragment `p`; cells outside the queue, the blocks and the error number are as they were.
  pub enqueue-Enqueued :
      {q : Ptr} {free : List Ptr}
      → IsQueue w self d vs p (q ∷ free) out items
      → self.val_bytes ≤ length val
      → Returns
          (EnqueuePost w self d vs p q free out items val)
          (queue_enqueue (some self) (some val) w)
  unfolding queue_enqueue
  enqueue-Enqueued is long =
      Returns.bind (enqueue_value-Enqueued is val long) λ (s, self') v e. returns (self', refl, e)

  -- On a queue with no free fragment behind the next one `queue_enqueue` fails with ENOMEM, and
  -- nothing but the error number changes.
  pub enqueue-full :
      IsQueue w self d vs p [] out items
      → queue_enqueue (some self) (some val) w
        ≡ ok (failure, some self) (record w { errno = enomem })
  unfolding queue_enqueue
  enqueue-full is = rw (enqueue_value-full {self = self} val is)
