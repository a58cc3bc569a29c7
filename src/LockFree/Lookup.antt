-- ===== src/LockFree/Lookup.antt =====
-- `list_search` finds the value of a key, and changes nothing.
use coop_tasks.Base.{
  ℕ, ◌+◌, ◌<◌, ◌≤◌, ◌≡◌, ◌⊎◌, ◌∈◌, refl, sym, ap, subst, ◌∙◌, true, false, some, none, Option, List,
  [], ◌∷◌, ◌++◌, arith, ◌==◌, length, take, drop, has, inl, inr,
}
use coop_tasks.Heap.{Ptr, null, World, ok, enoent}
use coop_tasks.Heap.Access.{bytes_at-Holds}
use coop_tasks.Heap.Returns
use coop_tasks.Heap.Returns.{Returns, returns}
use coop_tasks.Mempool.{Status, success, failure}
use coop_tasks.Msq.{OnlyAnswers}
use coop_tasks.Queue.{Bytes, LongEnough, Received}
use coop_tasks.LockFree.Defs.{LockFreeList}
use coop_tasks.LockFree.Ops.{key_min, search_node, list_search, uint32_max}
use coop_tasks.LockFree.Span.{
  Entry, ats, IsNode, HasVal, Span, Span-IsNode, Span-rest, first, at_end, key_end, upto, from,
}
use coop_tasks.LockFree.Search.{search_from-ok, load_node}
use coop_tasks.LockFree.Spec.{Found, Missing, place, Span-Rising, find, items}
use coop_tasks.LockFree.Inv.{IsList, IsUserKey, IsList-Ends, rest-Span}
use coop_tasks.LockFree.Values.{read_val-Read}

pub at_end-append : (a : Ptr) (l : List Entry) (e : Entry) → at_end a (l ++ e ∷ []) ≡ e.at
at_end-append a [] e = refl
at_end-append a (x ∷ l) e = at_end-append x.at l e

key_end-append : (k : ℕ) (l : List Entry) (e : Entry) → key_end k (l ++ e ∷ []) ≡ e.key
key_end-append k [] e = refl
key_end-append k (x ∷ l) e = key_end-append x.key l e

ats-mem : (l : List Entry) (e : Entry) (r : List Entry) → e.at ∈ ats (l ++ e ∷ r)
ats-mem [] e r = ground arith
ats-mem (x ∷ l) e r = ground (arith, ats-mem l e r)

module _ {w : World} {self : LockFreeList} {es : List Entry} {p : Ptr} {free out : List Ptr}
    (is : IsList w self es p free out) {key : ℕ} (user : IsUserKey key) where
  pub place_key : Found key es ⊎ Missing key_min key es
  place_key =
      place key_min key es
        (Span-Rising w.heap self.val_bytes self.head key_min es self.tail is.span) user.above_min

  pub search_node-Missing :
      (fuel : ℕ)
      → length es < fuel
      → Missing key_min key es
      → search_node fuel self key w ≡ ok null w
  unfolding search_node
  search_node-Missing fuel lt m =
      let at = Span-IsNode w.heap self.val_bytes _ _ (from key es) self.tail (rest-Span is key) in
      let ne : (key_end key_min (upto key es) == key) ≡ false = ground (arith, m.end_ne) in
      rw (
        search_from-ok w self.val_bytes self.head key_min es self.tail key fuel is.span
            (IsList-Ends is key user.below_max) lt,
        load_node w at,
        at.is_key,
        ne,
      )

  module _ (f : Found key es) where
    -- From the entry with the key on.
    pub found-Span :
        Span w.heap self.val_bytes f.entry.at f.entry.key f.behind self.tail
        × HasVal w.heap self.val_bytes f.entry.at f.entry.val
    found-Span =
        let s =
          Span-rest w.heap self.val_bytes self.head key_min f.before (f.entry ∷ f.behind) self.tail
            (subst (λ xs. Span w.heap self.val_bytes self.head key_min xs self.tail) f.split
              is.span) in
        (s.3, s.2)

    pub found_node : IsNode w.heap f.entry.at f.entry.key (first f.behind self.tail)
    found_node =
        Span-IsNode w.heap self.val_bytes f.entry.at f.entry.key f.behind self.tail found-Span.0

    pub search_node-found :
        (fuel : ℕ) → length es < fuel → search_node fuel self key w ≡ ok f.entry.at w
    unfolding search_node
    search_node-found fuel lt =
        let same : (f.entry.key == key) ≡ true = ground (arith, f.is_key) in
        rw (
          search_from-ok w self.val_bytes self.head key_min es self.tail key fuel is.span
              (IsList-Ends is key user.below_max) lt,
          f.upto_is,
          at_end-append self.head f.before f.entry,
          load_node w found_node,
          found_node.is_key,
          same,
        )

    pub found_used : f.entry.at ∈ out
    found_used = ground (
      arith,
      is.used f.entry.at,
      ats-mem f.before f.entry f.behind,
      ap (λ xs. has f.entry.at (ats xs)) f.split,
    )

    pub found_room : self.val_bytes + 16 ≤ length found_node.cell.bytes
    found_room =
        is.room f.entry.at found_node.cell.bytes (ground (arith, found_used))
          (bytes_at-Holds w.heap f.entry.at found_node.cell found_node.holds)

    pub found_val : take self.val_bytes (drop 16 found_node.cell.bytes) ≡ f.entry.val
    found_val =
        let val = found-Span.1 in
        let same : some found_node.cell.bytes ≡ some val.bytes =
          sym (bytes_at-Holds w.heap f.entry.at found_node.cell found_node.holds) ∙ val.is_bytes in
        let eq : found_node.cell.bytes ≡ val.bytes = cc in
        ap (λ b. take self.val_bytes (drop 16 b)) eq ∙ val.is_val

-- What `list_search` returns and leaves, by what the map holds at the key.
abbrev pub Looked : World → ℕ → ℕ → Bytes → Option (List ℕ) → Status × Bytes × ℕ → World → Type 0
Looked w n readers val none (s, b, r) v =
    (s ≡ failure) × (b ≡ val) × (r ≡ readers) × (v ≡ record w { errno = enoent })
Looked w n readers val (some item) (s, b, r) v =
    (s ≡ success) × Received n val item b × (r ≡ readers) × OnlyAnswers w v

-- On a list, for a user's key, NULL or a long enough buffer at `val`, fewer readers than
-- UINT32_MAX, and fuel above the number of entries and of spurious failures ahead, `list_search`
-- ends without a fault and leaves the readers as they were. A key that is there succeeds: its
-- value is in the buffer and the rest of the buffer as it was, and the heap, the blocks and the
-- error number are as they were. Any other key fails with ENOENT, the buffer is as it was, and
-- nothing but the error number changes.
pub search-Looked :
    {w : World} {self : LockFreeList} {es : List Entry} {p : Ptr} {free out : List Ptr}
    (fuel readers key : ℕ) (val : Bytes)
    → IsList w self es p free out
    → IsUserKey key
    → LongEnough self.val_bytes val
    → readers < uint32_max
    → length es + length w.spurious < fuel
    → Returns
        (Looked w self.val_bytes readers val (find key (items es)))
        (list_search fuel readers self key val w)
unfolding list_search
search-Looked {w} {self} fuel readers key val is user long few lt = elim (place_key is user) [
  | inr m ↦
      rw (search_node-Missing is user fuel (omega (arith, lt)) m, m.find_is)
        (returns (refl, refl, refl, refl))
  | inl f ↦
      let node_ = found_node is user f in
      let ne : (f.entry.at == null) ≡ false = ground (arith, node_.holds.ne_null) in
      rw (search_node-found is user f fuel (omega (arith, lt)), ne, f.find_is)
        (Returns.bind
          (read_val-Read fuel readers self.val_bytes val w node_.holds (found_room is user f) long
            few (omega (arith, lt)))
          λ (b, r) v (got, kept, same). returns (
            refl,
            subst (λ x. Received self.val_bytes val x b) (found_val is user f) got,
            kept,
            same,
          ))
]
