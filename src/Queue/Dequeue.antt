-- ===== src/Queue/Dequeue.antt =====
-- `queue_dequeue` takes the first item, and gives its fragment back, or reports an empty queue.
use coop_tasks.Base.{
  ℕ, ◌≤◌, ◌≡◌, ◌≢◌, refl, sym, ap, ◌∙◌, false, Option, none, some, List, [], ◌∷◌, ◌++◌, arith,
  length, take, drop, has-append, ◌∈◌, take-append, drop-append, length-take-drop, erase, has-erase,
  length-erase, mem_ne,
}
use coop_tasks.Heap.{Ptr, null, Heap, World, ok, enoent}
use coop_tasks.Heap.Access.{Holds-of_bytes, bytes_at-Holds, load-ok, memcpy-ok}
use coop_tasks.Heap.Chain.{link_at, bytes_at, link_of, last, last-mem, mem-ne_null}
use coop_tasks.Heap.Returns
use coop_tasks.Heap.Returns.{Returns, returns}
use coop_tasks.Msq.{
  Ends, IsLine, IsLine-frame, Peeks, Taken, unlink_first-Taken, unlink_first-empty,
}
use coop_tasks.Mempool.{Pool, Status, success, failure, IsPool, IsPool-frame, Put, free-Freed}
use coop_tasks.Queue.Defs.{Queue, Bytes, copy_out, dequeued, queue_dequeue}
use coop_tasks.Queue.Inv.{IsQueue, Stored-frame}
use coop_tasks.Queue.Value.{LongEnough}
use coop_tasks.Queue.Enqueue.{owns}

-- A buffer that the item was copied to: its front is the item, the rest is as it was.
abbrev pub Received : ℕ → Bytes → List ℕ → Bytes → Type 0
Received n none item b = b ≡ none
Received n (some val) item b =
    (got : List ℕ) × (b ≡ some got) × (take n got ≡ item) × (drop n got ≡ drop n val)

-- A buffer to which no item, or an earlier one, was copied.
abbrev pub Buffer : ℕ → Bytes → Bytes → Type 0
Buffer n none b = b ≡ none
Buffer n (some val) b =
    (got : List ℕ) × (b ≡ some got) × (n ≤ length got) × (drop n got ≡ drop n val)

pub Buffer-start : (n : ℕ) (val : Bytes) → LongEnough n val → Buffer n val val
Buffer-start n none long = refl
Buffer-start n (some val) long = (val, refl, long, refl)

-- Reading the first value copies its item, however often it is done.
pub copy_out-Peeks :
    (n : ℕ) (val : Bytes) (item bytes : List ℕ) (h : Heap) (x : Ptr)
    → x ≢ null
    → bytes_at h x ≡ some bytes
    → n ≤ length bytes
    → take n bytes ≡ item
    → Peeks (Received n val item) (Buffer n val) (copy_out n) h x
unfolding copy_out
copy_out-Peeks n none item bytes h x ne e room is b w same buf = rw buf (returns (refl, refl, refl))
copy_out-Peeks n (some val) item bytes h x ne e room is b w same (got, is_b, long, rest) =
    let (c, at) = Holds-of_bytes w.heap x bytes ne (ap (λ g. bytes_at g x) same ∙ e) in
    let eq : some c.bytes ≡ some bytes =
      sym (bytes_at-Holds w.heap x c at) ∙ ap (λ g. bytes_at g x) same ∙ e in
    let same_bytes : c.bytes ≡ bytes = cc in
    rw (is_b, load-ok w at, same_bytes, memcpy-ok n got bytes w long room)
      (returns (
        refl,
        (_, refl, take-append n bytes _ room ∙ is, drop-append n bytes _ room ∙ rest),
        (
          _,
          refl,
          omega (arith, length-take-drop n bytes got room long),
          drop-append n bytes _ room ∙ rest,
        ),
      ))

-- The first item is out, in the buffer if there is one; `d` went back to the pool.
pub record Dequeued (w : World) (self : Queue) (d x : Ptr) (vs : List Ptr) (p : Ptr)
    (free out : List Ptr) (item : List ℕ) (items : List (List ℕ)) (val : Bytes)
    (r : Status × Queue × Bytes) (v : World) : Type 0 where
  pub status : r.0 ≡ success
  pub is : IsQueue v r.1 x vs p (free ++ d ∷ []) (erase d out) items
  pub received : Received self.val_bytes val item r.2
  pub size : r.1.val_bytes ≡ self.val_bytes
  pub capacity : r.1.pool.capacity ≡ self.pool.capacity
  pub others : (a : Ptr) → owns p free out a ≡ false → v.heap a ≡ w.heap a
  pub blocks : v.blocks ≡ w.blocks
  pub errno : v.errno ≡ w.errno

module _ {w : World} {self : Queue} {d x : Ptr} {vs : List Ptr} {p : Ptr} {free out : List Ptr}
    {item : List ℕ} {items : List (List ℕ)}
    (is : IsQueue w self d (x ∷ vs) p free out (item ∷ items)) (val : Bytes) where
  dummy_used : d ∈ out
  dummy_used = ground (arith, is.used d)

  module _ {e : Ends} {b : Bytes} {v : World}
      (taken : Taken
        (Received self.val_bytes val item)
        (Buffer self.val_bytes val)
        w
        x
        vs
        (e, b)
        v) where
    pool-Taken : IsPool v self.pool p free out
    pool-Taken =
        IsPool-frame w v is.pool (λ a m. ap (λ h. link_at h a) taken.answers.heap)
          (λ a m.
            let (c, at) = is.pool.cells a m in
            (c, record { ne_null = at.ne_null; cell = ap (λ h. h a) taken.answers.heap ∙ at.cell }))

    module _ {pool : Pool} {u : World} (put : Put v self.pool p free out d pool u) where
      kept_bytes : (a : Ptr) → bytes_at u.heap a ≡ bytes_at w.heap a
      kept_bytes a = put.bytes a ∙ ap (λ h. bytes_at h a) taken.answers.heap

      kept_cell : (a : Ptr) → a ≢ d → a ≢ last p free → u.heap a ≡ w.heap a
      kept_cell a ne ne_last = put.others a ne ne_last ∙ ap (λ h. h a) taken.answers.heap

      not_free : (a : Ptr) → a ∈ x ∷ vs → a ≢ last p free
      not_free a m =
          mem_ne a (last p free) (p ∷ free) (is.pool.apart a (ground (arith, is.used a)))
            (last-mem p free)

      kept-IsLine : IsLine (link_at u.heap) e x vs
      kept-IsLine =
          IsLine-frame (link_at w.heap) (link_at u.heap) e x vs
            (λ a m. ap link_of (kept_cell a (ground (arith, is.line.chain)) (not_free a m)))
            taken.line

      Put-Dequeued :
          Dequeued w self d x vs p free out item items val
            (success, record self { ends = e; pool = pool }, b)
            u
      Put-Dequeued = record {
        status = refl;
        is = record {
          pool = put.is;
          line = kept-IsLine;
          used = λ a. has-erase d a out is.pool.distinct ∙ ground (arith, is.used a, is.line.chain);
          used_count = omega (arith, is.used_count, length-erase d out dummy_used);
          stored =
              Stored-frame w.heap u.heap self.val_bytes vs items (λ a m. kept_bytes a) is.stored.1;
          room = λ a bytes m at.
              is.room a bytes
                (ground (
                  arith,
                  has-append a (p ∷ free) (d ∷ []),
                  has-erase d a out is.pool.distinct,
                  dummy_used,
                ))
                (sym (kept_bytes a) ∙ at);
        };
        received = taken.value;
        size = refl;
        capacity = put.config.capacity;
        others = λ a o. kept_cell a (ground (arith, dummy_used)) (ground (arith, last-mem p free));
        blocks = put.blocks ∙ taken.answers.blocks;
        errno = put.errno ∙ taken.answers.errno;
      }

  -- The first value holds the item, in a fragment with room for it.
  first_ne_null : x ≢ null
  first_ne_null = mem-ne_null (link_at w.heap) d (x ∷ vs) x is.line.chain (ground arith)

  first_room : self.val_bytes ≤ length is.stored.0.0
  first_room = is.room x is.stored.0.0 (ground (arith, is.used x)) is.stored.0.1

  dequeued-Dequeued :
      (e : Ends) (b : Bytes) (v : World)
      → Taken (Received self.val_bytes val item) (Buffer self.val_bytes val) w x vs (e, b) v
      → Returns (Dequeued w self d x vs p free out item items val) (dequeued self (some d) e b v)
  unfolding dequeued
  dequeued-Dequeued e b v taken =
      Returns.bind (free-Freed d (pool-Taken taken) dummy_used)
        λ o u (pool, made, put). rw made (returns (Put-Dequeued taken put))

-- The queue that `queue_dequeue` returns is never NULL here.
abbrev pub DequeuePost :
    World
    → Queue
    → (d x : Ptr) → List Ptr
    → Ptr
    → (free out : List Ptr) → List ℕ
    → List (List ℕ)
    → Bytes
    → Status × Option Queue × Bytes
    → World
    → Type 0
DequeuePost w self d x vs p free out item items val (s, o, b) v =
    (self' : Queue) × (o ≡ some self')
    × Dequeued w self d x vs p free out item items val (s, self', b) v

module _ {w : World} {self : Queue} {d : Ptr} {p : Ptr} {out : List Ptr} (val : Bytes) where
  -- On a queue with a first item, and with NULL or a buffer that is long enough at `val`,
  -- `queue_dequeue` succeeds: the queue is well formed with the other items, the old dummy is free
  -- again, the item is in the buffer and the rest of the buffer is as it was; cells outside the
  -- queue, the blocks and the error number are as they were.
  pub dequeue-Dequeued :
      {x : Ptr} {vs free : List Ptr} {item : List ℕ} {items : List (List ℕ)}
      → IsQueue w self d (x ∷ vs) p free out (item ∷ items)
      → LongEnough self.val_bytes val
      → Returns
          (DequeuePost w self d x vs p free out item items val)
          (queue_dequeue (some self) val w)
  unfolding queue_dequeue
  dequeue-Dequeued is long =
      Returns.bind
        (unlink_first-Taken enoent (copy_out self.val_bytes) w self.ends val is.line
          (copy_out-Peeks self.val_bytes val _ is.stored.0.0 w.heap _ (first_ne_null is val)
            is.stored.0.1 (first_room is val) is.stored.0.2)
          (Buffer-start self.val_bytes val long))
        λ (o, (e, b)) v (got, taken). rw got (
          Returns.bind (dequeued-Dequeued is val e b v taken)
            λ (s, self', b') u done. returns (self', refl, done))

  -- On a well-formed queue with no value `queue_dequeue` fails with ENOENT, and nothing but the
  -- error number changes.
  pub dequeue-empty :
      {free : List Ptr} {items : List (List ℕ)}
      → IsQueue w self d [] p free out items
      → queue_dequeue (some self) val w ≡ ok (failure, some self, val) (record w { errno = enoent })
  unfolding queue_dequeue dequeued
  dequeue-empty is =
      rw (unlink_first-empty enoent (copy_out self.val_bytes) w self.ends d val is.line)
