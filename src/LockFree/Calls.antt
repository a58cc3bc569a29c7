-- ===== src/LockFree/Calls.antt =====
-- A list of src/collections.c and the finite map that it promises: the calls of both, and when they
-- agree.
use coop_tasks.Base.{
  ℕ, ◌+◌, ◌≤◌, ◌≡◌, Option, none, some, List, [], ◌∷◌, ltb, ◌==◌, if◌then◌else◌, length, take,
}
use coop_tasks.Heap.{Ptr, World, Cmd, ok, pure, ◌>>=◌}
use coop_tasks.Mempool.{Status, success, failure}
use coop_tasks.Queue.{Bytes}
use coop_tasks.LockFree.Defs.{LockFreeList}
use coop_tasks.LockFree.Ops.{list_insert, list_delete, list_search, list_update, eexist}
use coop_tasks.LockFree.Span.{Entry}
use coop_tasks.LockFree.Spec.{Items, items, find, put, remove, set}
use coop_tasks.LockFree.Inv.{IsList, IsUserKey}

-- A call with its key, and the bytes at `val` (a buffer to fill, for `delete` and `search`).
pub data MapCall : Type 0 where
  insert : ℕ → List ℕ → MapCall
  delete : ℕ → List ℕ → MapCall
  search_for : ℕ → List ℕ → MapCall
  update : ℕ → List ℕ → MapCall

pub data MapAnswer : Type 0 where
  did : MapAnswer
  exists : MapAnswer
  no_room : MapAnswer
  missing : MapAnswer
  value : List ℕ → MapAnswer

-- What the map answers, by what it holds at the key.
abbrev pub map_insert : ℕ → ℕ → List ℕ → Items → Option (List ℕ) → MapAnswer × Items
map_insert capacity key val its (some old) = (exists, its)
map_insert capacity key val its none =
    if ltb (length its) capacity then (did, put key val its) else (no_room, its)

abbrev pub map_delete : ℕ → Items → Option (List ℕ) → MapAnswer × Items
map_delete key its (some old) = (value old, remove key its)
map_delete key its none = (missing, its)

abbrev pub map_search : Items → Option (List ℕ) → MapAnswer × Items
map_search its (some old) = (value old, its)
map_search its none = (missing, its)

abbrev pub map_update : ℕ → List ℕ → Items → Option (List ℕ) → MapAnswer × Items
map_update key val its (some old) = (did, set key val its)
map_update key val its none = (missing, its)

-- The specification: at most `capacity` keys, each with a value of `n` bytes.
unfoldable pub map_call : ℕ → ℕ → MapCall → Items → MapAnswer × Items
map_call n capacity (insert key val) its = map_insert capacity key (take n val) its (find key its)
map_call n capacity (delete key val) its = map_delete key its (find key its)
map_call n capacity (search_for key val) its = map_search its (find key its)
map_call n capacity (update key val) its = map_update key (take n val) its (find key its)

unfoldable pub map_run : ℕ → ℕ → List MapCall → Items → List MapAnswer × Items
map_run n capacity [] its = ([], its)
map_run n capacity (c ∷ cs) its =
    let (a, its') = map_call n capacity c its in
    let (as_, its'') = map_run n capacity cs its' in (a ∷ as_, its'')

-- The code: what the caller sees of a call, with the error number of a failed insertion.
abbrev pub get_errno : Cmd ℕ
get_errno w = ok w.errno w

abbrev pub insert_answer : Status → ℕ → MapAnswer
insert_answer success e = did
insert_answer failure e = if e == eexist then exists else no_room

abbrev pub front : ℕ → Bytes → List ℕ
front n none = []
front n (some val) = take n val

abbrev pub value_answer : ℕ → Status → Bytes → MapAnswer
value_answer n success b = value (front n b)
value_answer n failure b = missing

abbrev pub update_answer : Status → MapAnswer
update_answer success = did
update_answer failure = missing

-- The list and `readers` go from call to call.
unfoldable pub list_call : ℕ → ℕ → MapCall → LockFreeList × ℕ → Cmd (MapAnswer × (LockFreeList × ℕ))
list_call fuel n (insert key val) (self, readers) = do
  (s, self') ← list_insert fuel self key (some val)
  e ← get_errno
  pure (insert_answer s e, (self', readers))
list_call fuel n (delete key val) (self, readers) = do
  (s, self', b, readers') ← list_delete fuel readers self key (some val)
  pure (value_answer n s b, (self', readers'))
list_call fuel n (search_for key val) (self, readers) = do
  (s, b, readers') ← list_search fuel readers self key (some val)
  pure (value_answer n s b, (self, readers'))
list_call fuel n (update key val) (self, readers) = do
  (s, readers') ← list_update fuel readers self key (some val)
  pure (update_answer s, (self, readers'))

unfoldable pub list_run :
    ℕ → ℕ → List MapCall → LockFreeList × ℕ → Cmd (List MapAnswer × (LockFreeList × ℕ))
list_run fuel n [] l = pure ([], l)
list_run fuel n (c ∷ cs) l = do
  (a, l') ← list_call fuel n c l
  (as_, l'') ← list_run fuel n cs l'
  pure (a ∷ as_, l'')

-- Each call has a key for users, and passes bytes for a whole value.
abbrev pub key_of : MapCall → ℕ
key_of (insert key val) = key
key_of (delete key val) = key
key_of (search_for key val) = key
key_of (update key val) = key

abbrev pub bytes_of_call : MapCall → List ℕ
bytes_of_call (insert key val) = val
bytes_of_call (delete key val) = val
bytes_of_call (search_for key val) = val
bytes_of_call (update key val) = val

abbrev pub ProperCalls : ℕ → List MapCall → Type 0
ProperCalls n [] = Unit {0}
ProperCalls n (c ∷ cs) = IsUserKey (key_of c) × (n ≤ length (bytes_of_call c)) × ProperCalls n cs

-- A list that holds the given items, with room for `capacity` values of `n` bytes.
pub record RepresentsMap (w : World) (self : LockFreeList) (n capacity : ℕ) (its : Items)
    : Type 0 where
  pub entries : List Entry
  pub first_free : Ptr
  pub free : List Ptr
  pub out : List Ptr
  pub is : IsList w self entries first_free free out
  pub items_are : items entries ≡ its
  pub size : self.val_bytes ≡ n
  pub room : self.pool.capacity ≡ capacity + 2
  pub quiet : w.spurious ≡ []

-- The code gave the answer of the map, and represents its items; no reader is left.
abbrev pub MapAgrees : {A : Type 0} → ℕ → ℕ → A × Items → A × (LockFreeList × ℕ) → World → Type 0
MapAgrees n capacity (a, its) (b, (l, readers)) v =
    (b ≡ a) × (readers ≡ 0) × RepresentsMap v l n capacity its
