-- ===== src/Msq/Defs.antt =====
-- The two loops of the non-blocking queue of Michael and Scott, on which src/collections.c builds
-- its memory pool (`internal_mempool_put`, `internal_mempool_pick`) and its queue
-- (`queue_enqueue`, `queue_dequeue`). The loops of the first pair and of the second are the same
-- code, up to the names of fields, the error number and a copy of the value, which are arguments
-- here. A run is that of one thread, whose weak compare-exchanges may fail spuriously.
use coop_tasks.Base.{ℕ, suc, Bool, Option, none, some, ◌==◌, if◌then◌else◌, inc32, length}
use coop_tasks.Heap.{
  ok, Ptr, null, Node, node, equals, Cmd, pure, ◌>>=◌, ◌>>◌, set_errno, load, agree, cas_next, Turn,
  again, leave, repeat,
}

-- The fields `head` and `tail`.
pub record Ends : Type 0 where
  pub head : Node
  pub tail : Node

-- Fuel: each spurious failure costs a round at most, a lagging tail one more, and the last round
-- leaves.
abbrev pub rounds : Cmd ℕ
rounds w = ok (suc (suc (length w.spurious))) w

-- `atomic_compare_exchange_weak(&self->tail, &expected, wanted)`
unfoldable pub cas_tail : Ends → (expected wanted : Node) → Cmd Ends
cas_tail e expected wanted = do
  done ← agree e.tail expected
  pure (if done then record e { tail = wanted } else e)

-- `atomic_compare_exchange_weak(&self->head, &expected, wanted)`
unfoldable pub cas_head : Ends → (expected wanted : Node) → Cmd (Bool × Ends)
cas_head e expected wanted = do
  done ← agree e.head expected
  pure (done, if done then record e { head = wanted } else e)

-- A round that finds a fragment behind the tail: it moves the tail on to that.
unfoldable pub help_tail : {A : Type 0} → Ends → (tail next : Node) → Cmd (Turn A × Ends)
help_tail e tail next = do
  e' ← cas_tail e tail (node (inc32 tail.count) next.frag)
  pure (again, e')

-- A round that finds the end of the chain behind the tail: it links `frag` there.
unfoldable pub link_here : Ptr → Ends → (tail next : Node) → Cmd (Turn Node × Ends)
link_here frag e tail next = do
  done ← cas_next tail.frag next (node (inc32 next.count) frag)
  pure (if done then leave tail else again, e)

-- The body of the loop that links `frag` behind the last fragment; it leaves with `tail`.
unfoldable pub link_once : Ptr → Ends → Cmd (Turn Node × Ends)
link_once frag e = do
  let tail = e.tail
  c ← load tail.frag
  let next = c.next
  if equals tail e.tail
      then if next.frag == null then link_here frag e tail next else help_tail e tail next
      else pure (again, e)

-- The loop, and the attempt to move the tail that follows it.
unfoldable pub link_last : Ptr → Ends → Cmd Ends
link_last frag e = do
  k ← rounds
  (tail, e') ← repeat (link_once frag) k e
  cas_tail e' tail (node (inc32 tail.count) frag)

module _ {B : Type 0} where
  -- A round that finds the end of the chain behind head and tail: there is nothing to take.
  unfoldable pub give_up : ℕ → Ends × B → Cmd (Turn (Option Ptr) × (Ends × B))
  give_up error s = do set_errno error; pure (leave none, s)

  -- A round that finds a fragment behind the head: it moves the head on to that.
  unfoldable pub take_first :
      (Ptr → B → Cmd B) → Ends × B → (head next : Node) → Cmd (Turn (Option Ptr) × (Ends × B))
  take_first peek (e, b) head next = do
    b' ← peek next.frag b
    (done, e') ← cas_head e head (node (inc32 head.count) next.frag)
    pure (if done then leave (some head.frag) else again, (e', b'))

  -- The body of the loop that takes the first fragment off; `peek` is what it reads of the next.
  unfoldable pub unlink_once :
      ℕ → (Ptr → B → Cmd B) → Ends × B → Cmd (Turn (Option Ptr) × (Ends × B))
  unlink_once error peek (e, b) = do
    let head = e.head
    let tail = e.tail
    c ← load head.frag
    let next = c.next
    if equals head e.head
        then if head.frag == tail.frag
          then if next.frag == null
            then give_up error (e, b)
            else (do (t, e') ← help_tail e tail next; pure (t, (e', b)))
          else take_first peek (e, b) head next
        else pure (again, (e, b))

  unfoldable pub unlink_first : ℕ → (Ptr → B → Cmd B) → Ends × B → Cmd (Option Ptr × (Ends × B))
  unlink_first error peek s = do k ← rounds; repeat (unlink_once error peek) k s
