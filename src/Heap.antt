-- ===== src/Heap.antt =====
-- The memory that src/collections.c works on, and its commands. A fragment of a memory pool
-- (`struct memory_fragment`) and a value of a queue (`struct queue_value`) have one layout: a
-- link (`struct memory_node`, `struct queue_node`: a 32-bit count and a pointer) and then bytes.
-- A queue value stands in a pool fragment, so both are the one type `Cell` on one heap. So does a
-- node of the list (`struct list_node`), whose reference takes the place of the link, and whose
-- backlink and key take the first 16 bytes.
pub mod Access
pub mod Chain
pub mod Returns
use coop_tasks.Base.{
  ℕ, zero, suc, ◌+◌, ◌*◌, ◌%◌, Bool, true, false, ◌&&◌, Option, none, some, List, [], ◌∷◌, ◌++◌,
  ◌==◌, if◌then◌else◌, leb, length, take, drop,
}

abbrev pub Ptr : Type 0
Ptr = ℕ

abbrev pub null : Ptr
null = 0

-- `struct memory_node` and `struct queue_node`.
pub record Node : Type 0 where
  pub count : ℕ
  pub frag : Ptr

abbrev pub node : ℕ → Ptr → Node
node c p = record { count = c; frag = p }

-- `memory_node_equals` and `queue_node_equals`.
abbrev pub equals : Node → Node → Bool
equals a b = (a.count == b.count) && (a.frag == b.frag)

-- The backlink and the key of a node of the list are fields of their own, since nothing else reads or
-- writes those 16 bytes while they are in use. A key is kept with 2 ^ 63 added: 0 is `INTPTR_MIN`.
pub record Cell : Type 0 where
  pub next : Node
  pub backlink : Ptr
  pub key : ℕ
  pub bytes : List ℕ

abbrev pub Heap : Type 0
Heap = Ptr → Option Cell

-- The number and the size of the elements of a block that `calloc` gave.
pub record Block : Type 0 where
  pub elements : ℕ
  pub size : ℕ

-- What a thread sees besides the objects it works on. A weak compare-exchange may fail though
-- the values agree: each takes one answer of `spurious`, and succeeds once these are used up.
pub record World : Type 0 where
  pub heap : Heap
  pub blocks : Ptr → Option Block
  pub errno : ℕ
  pub spurious : List Bool

pub data Run (A : Type 0) : Type 0 where
  ok : A → World → Run A
  fault : Run A
  out_of_fuel : Run A

abbrev pub Cmd : Type 0 → Type 0
Cmd A = World → Run A

abbrev pub pure : {A : Type 0} → A → Cmd A
pure = ok

module _ {A B : Type 0} where
  abbrev pub and_then : Run A → (A → Cmd B) → Run B
  and_then (ok a w) k = k a w
  and_then fault k = fault
  and_then out_of_fuel k = out_of_fuel

  infixl 5 ◌>>=◌ ◌>>◌
  abbrev pub ◌>>=◌ : Cmd A → (A → Cmd B) → Cmd B
  m >>= k = λ w. and_then (m w) k

  abbrev pub ◌>>◌ : Cmd A → Cmd B → Cmd B
  m >> n = m >>= λ _. n

abbrev pub enomem : ℕ
enomem = 12

abbrev pub einval : ℕ
einval = 22

abbrev pub enoent : ℕ
enoent = 2

abbrev pub set_errno : ℕ → Cmd (Unit {0})
set_errno e w = ok tt (record w { errno = e })

-- `errno = e; return r;`
abbrev pub fail : {A : Type 0} → ℕ → A → Cmd A
fail e r w = ok r (record w { errno = e })

abbrev pub write : Heap → Ptr → Option Cell → Heap
write h p c a = if a == p then c else h a

-- `*p`, a fault at `NULL` and where there is no cell.
unfoldable pub load : Ptr → Cmd Cell
load p w = if p == null then fault else elim (w.heap p) [ none ↦ fault | some c ↦ ok c w ]

unfoldable pub store : Ptr → Cell → Cmd (Unit {0})
store p c = load p >> λ w. ok tt (record w { heap = write w.heap p (some c) })

-- `p->next = n`, which leaves the bytes behind the link alone.
unfoldable pub set_next : Ptr → Node → Cmd (Unit {0})
set_next p n = do c ← load p; store p (record c { next = n })

-- The next answer of `spurious`.
abbrev pub head_or : List Bool → Bool
head_or [] = false
head_or (b ∷ bs) = b

abbrev pub tail_of : List Bool → List Bool
tail_of [] = []
tail_of (b ∷ bs) = bs

-- The test of `atomic_compare_exchange_weak`.
unfoldable pub agree : (current expected : Node) → Cmd Bool
agree current expected w =
    ok (if head_or w.spurious then false else equals current expected)
      (record w { spurious = tail_of w.spurious })

-- `atomic_compare_exchange_weak(&p->next, &expected, wanted)`
unfoldable pub cas_next : Ptr → (expected wanted : Node) → Cmd Bool
cas_next p expected wanted = do
  c ← load p
  done ← agree c.next expected
  if done then (do store p (record c { next = wanted }); pure true) else pure false

-- `memcpy(dst, src, n)`: what `dst` holds after it. It is a fault to run past either end.
unfoldable pub memcpy : ℕ → (dst src : List ℕ) → Cmd (List ℕ)
memcpy n dst src =
    if leb n (length dst) && leb n (length src) then pure (take n src ++ drop n dst) else λ _. fault

-- `while (true) { body }`, where a round may leave the loop. Each round costs one unit of fuel.
pub data Turn (A : Type 0) : Type 0 where
  again : Turn A
  leave : A → Turn A

abbrev pub after_turn : {S A : Type 0} → (S → Cmd (A × S)) → Turn A × S → Cmd (A × S)
after_turn rest (again, s) = rest s
after_turn rest (leave a, s) = pure (a, s)

unfoldable pub repeat : {S A : Type 0} → (S → Cmd (Turn A × S)) → ℕ → S → Cmd (A × S)
repeat body zero s = λ _. out_of_fuel
repeat body (suc k) s = body s >>= after_turn (repeat body k)
