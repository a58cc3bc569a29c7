-- ===== src/Shared/Machine.antt =====
-- internal_mempool_put and internal_mempool_pick of src/collections.c, run by any number of threads:
-- a step is one access to the pool or to a fragment. A weak compare-exchange may fail whatever it
-- finds. The error number of a thread that finds the pool empty is left out.
use coop_tasks.Base.{
  ℕ, ◌≡◌, ◌≢◌, ◌∈◌, ◌∉◌, List, [], ◌∷◌, ◌++◌, ◌==◌, if◌then◌else◌, inc32, inc64, dec64,
}
use coop_tasks.Heap.{Ptr, null, Node, node}

-- Where a thread stands, with the local variables that are live there.
pub data Pc : Type 0 where
  idle : Pc
  -- before `*frag = MEMORY_FRAGMENT_MAKER()`, and at the head of the loop
  putting : (frag : Ptr) → Pc
  put_loop : (frag : Ptr) → Pc
  put_next : (frag : Ptr) (tail : Node) → Pc
  put_test : (frag : Ptr) (tail next : Node) → Pc
  put_link : (frag : Ptr) (tail next : Node) → Pc
  put_help : (frag : Ptr) (tail next : Node) → Pc
  -- behind the loop
  put_move : (frag : Ptr) (tail : Node) → Pc
  put_count : (frag : Ptr) → Pc
  pick_loop : Pc
  pick_tail : (head : Node) → Pc
  pick_next : (head tail : Node) → Pc
  pick_test : (head tail next : Node) → Pc
  pick_help : (head tail next : Node) → Pc
  pick_unlink : (head tail next : Node) → Pc
  pick_count : (frag : Ptr) → Pc

-- The pool, the first word of every fragment, and the threads. Histories: the fragments that were
-- ever given to the pool, those that were linked, those that were handed out, in that order, and
-- those whose `put` has returned.
pub record System : Type 0 where
  pub next : Ptr → Node
  pub head : Node
  pub tail : Node
  pub freeable : ℕ
  pub pc : ℕ → Pc
  pub given : List Ptr
  pub linked : List Ptr
  pub handed : List Ptr
  pub returned : List Ptr

abbrev pub write : (Ptr → Node) → Ptr → Node → Ptr → Node
write f a n b = if b == a then n else f b

abbrev pub set_pc : (ℕ → Pc) → ℕ → Pc → ℕ → Pc
set_pc f i p j = if j == i then p else f j

-- One step of the thread `i` in the code of the pool.
pub data Move (i : ℕ) (s : System) : System → Type 0 where
  make :
      (f : Ptr)
      → s.pc i ≡ putting f
      → Move i s (record s { next = write s.next f (node 0 null); pc = set_pc s.pc i (put_loop f) })
  load_tail :
      (f : Ptr)
      → s.pc i ≡ put_loop f
      → Move i s (record s { pc = set_pc s.pc i (put_next f s.tail) })
  load_next :
      (f : Ptr) (t : Node)
      → s.pc i ≡ put_next f t
      → Move i s (record s { pc = set_pc s.pc i (put_test f t (s.next t.frag)) })
  -- `equals(tail, self->tail)` fails, or holds and `next` is NULL, or is not.
  tail_moved :
      (f : Ptr) (t n : Node)
      → s.pc i ≡ put_test f t n
      → s.tail ≢ t
      → Move i s (record s { pc = set_pc s.pc i (put_loop f) })
  at_end :
      (f : Ptr) (t n : Node)
      → s.pc i ≡ put_test f t n
      → s.tail ≡ t
      → n.frag ≡ null
      → Move i s (record s { pc = set_pc s.pc i (put_link f t n) })
  behind :
      (f : Ptr) (t n : Node)
      → s.pc i ≡ put_test f t n
      → s.tail ≡ t
      → n.frag ≢ null
      → Move i s (record s { pc = set_pc s.pc i (put_help f t n) })
  link :
      (f : Ptr) (t n : Node)
      → s.pc i ≡ put_link f t n
      → s.next t.frag ≡ n
      → Move i s (record s {
        next = write s.next t.frag (node (inc32 n.count) f);
        pc = set_pc s.pc i (put_move f t);
        linked = s.linked ++ f ∷ [];
      })
  link_fails :
      (f : Ptr) (t n : Node)
      → s.pc i ≡ put_link f t n
      → Move i s (record s { pc = set_pc s.pc i (put_loop f) })
  help_put :
      (f : Ptr) (t n : Node)
      → s.pc i ≡ put_help f t n
      → s.tail ≡ t
      → Move i s (record s { tail = node (inc32 t.count) n.frag; pc = set_pc s.pc i (put_loop f) })
  help_put_fails :
      (f : Ptr) (t n : Node)
      → s.pc i ≡ put_help f t n
      → Move i s (record s { pc = set_pc s.pc i (put_loop f) })
  move_tail :
      (f : Ptr) (t : Node)
      → s.pc i ≡ put_move f t
      → s.tail ≡ t
      → Move i s (record s { tail = node (inc32 t.count) f; pc = set_pc s.pc i (put_count f) })
  move_tail_fails :
      (f : Ptr) (t : Node)
      → s.pc i ≡ put_move f t
      → Move i s (record s { pc = set_pc s.pc i (put_count f) })
  count_put :
      (f : Ptr)
      → s.pc i ≡ put_count f
      → Move i s (record s {
        freeable = inc64 s.freeable;
        pc = set_pc s.pc i idle;
        returned = s.returned ++ f ∷ [];
      })
  load_head : s.pc i ≡ pick_loop → Move i s (record s { pc = set_pc s.pc i (pick_tail s.head) })
  load_tail_too :
      (h : Node)
      → s.pc i ≡ pick_tail h
      → Move i s (record s { pc = set_pc s.pc i (pick_next h s.tail) })
  load_head_next :
      (h t : Node)
      → s.pc i ≡ pick_next h t
      → Move i s (record s { pc = set_pc s.pc i (pick_test h t (s.next h.frag)) })
  -- `equals(head, self->head)` fails; or holds, and the pool is empty, the tail is behind, or there
  -- is a fragment to hand out.
  head_moved :
      (h t n : Node)
      → s.pc i ≡ pick_test h t n
      → s.head ≢ h
      → Move i s (record s { pc = set_pc s.pc i pick_loop })
  empty :
      (h t n : Node)
      → s.pc i ≡ pick_test h t n
      → s.head ≡ h
      → h.frag ≡ t.frag
      → n.frag ≡ null
      → Move i s (record s { pc = set_pc s.pc i idle })
  tail_behind :
      (h t n : Node)
      → s.pc i ≡ pick_test h t n
      → s.head ≡ h
      → h.frag ≡ t.frag
      → n.frag ≢ null
      → Move i s (record s { pc = set_pc s.pc i (pick_help h t n) })
  not_empty :
      (h t n : Node)
      → s.pc i ≡ pick_test h t n
      → s.head ≡ h
      → h.frag ≢ t.frag
      → Move i s (record s { pc = set_pc s.pc i (pick_unlink h t n) })
  help_pick :
      (h t n : Node)
      → s.pc i ≡ pick_help h t n
      → s.tail ≡ t
      → Move i s (record s { tail = node (inc32 t.count) n.frag; pc = set_pc s.pc i pick_loop })
  help_pick_fails :
      (h t n : Node)
      → s.pc i ≡ pick_help h t n
      → Move i s (record s { pc = set_pc s.pc i pick_loop })
  unlink :
      (h t n : Node)
      → s.pc i ≡ pick_unlink h t n
      → s.head ≡ h
      → Move i s (record s {
        head = node (inc32 h.count) n.frag;
        pc = set_pc s.pc i (pick_count h.frag);
        handed = s.handed ++ h.frag ∷ [];
      })
  unlink_fails :
      (h t n : Node)
      → s.pc i ≡ pick_unlink h t n
      → Move i s (record s { pc = set_pc s.pc i pick_loop })
  count_pick :
      (f : Ptr)
      → s.pc i ≡ pick_count f
      → Move i s (record s { freeable = dec64 s.freeable; pc = set_pc s.pc i idle })

-- What a thread does between its calls: it gives a fragment that was not given before to
-- `mempool_free`, calls `mempool_alloc`, or writes to the first word of a fragment that was handed
-- out, what `MayWrite` allows.
pub data Step (MayWrite : Node → Type 0) (s : System) : System → Type 0 where
  move : {t : System} (i : ℕ) → Move i s t → Step MayWrite s t
  free :
      (i : ℕ) (f : Ptr)
      → s.pc i ≡ idle
      → f ≢ null
      → f ∉ s.given
      → Step MayWrite s (record s { pc = set_pc s.pc i (putting f); given = f ∷ s.given })
  alloc : (i : ℕ) → s.pc i ≡ idle → Step MayWrite s (record s { pc = set_pc s.pc i pick_loop })
  use_fragment :
      (f : Ptr) (n : Node)
      → f ∈ s.handed
      → MayWrite n
      → Step MayWrite s (record s { next = write s.next f n })

-- A pool with its dummy `d`, and no thread in a call.
abbrev pub fresh_pool : Ptr → System
fresh_pool d = record {
  next = λ _. node 0 null;
  head = node 0 d;
  tail = node 0 d;
  freeable = 0;
  pc = λ _. idle;
  given = d ∷ [];
  linked = d ∷ [];
  handed = [];
  returned = [];
}

pub data Reach (MayWrite : Node → Type 0) (d : Ptr) : System → Type 0 where
  at_first : Reach MayWrite d (fresh_pool d)
  then_step : {s t : System} → Reach MayWrite d s → Step MayWrite s t → Reach MayWrite d t
