-- ===== src/LockFree/Update.antt =====
-- `list_update` replaces the value of a key.
use coop_tasks.Base.{
  ℕ, ◌+◌, ◌<◌, ◌≤◌, ◌≡◌, ◌≢◌, ◌∈◌, ◌∉◌, refl, sym, ap, subst, ◌∙◌, false, some, none, Option, List,
  ◌∷◌, ◌++◌, arith, ◌==◌, length, take, has, inl, inr, Bool-cases, length-append, mem_ne,
}
use coop_tasks.Heap.{Ptr, null, Cell, World, enoent}
use coop_tasks.Heap.Access.{Holds, bytes_at-Holds}
use coop_tasks.Heap.Chain.{bytes_at, bytes_of}
use coop_tasks.Heap.Returns
use coop_tasks.Heap.Returns.{Returns, returns}
use coop_tasks.Mempool.{Status, success, failure}
use coop_tasks.LockFree.Defs.{LockFreeList}
use coop_tasks.LockFree.Ops.{key_min, list_update}
use coop_tasks.LockFree.Span.{
  Entry, ats, IsNode, IsNode-frame, IsNode-ne, Span, Span-rest, Span-replace, first, at_end,
  key_end,
}
use coop_tasks.LockFree.Spec.{Found, find, set, items}
use coop_tasks.LockFree.Inv.{IsList, IsUserKey}
use coop_tasks.LockFree.Lookup.{
  place_key, search_node-Missing, search_node-found, found-Span, found_node, found_used, found_room,
}
use coop_tasks.LockFree.Values.{
  with_val, copied, copied_here, copied_other, val-with_val, length-with_val, write_val-Written,
}
use coop_tasks.LockFree.Change.{
  Span-below, Span-reroot, Span-not_behind, IsPool-used, key_end-middle, ats-middle, at_end-mem,
}

module _ {w : World} {self : LockFreeList} {es : List Entry} {p : Ptr} {free out : List Ptr}
    (is : IsList w self es p free out) {key : ℕ} (user : IsUserKey key) (f : Found key es)
    (val : List ℕ) (long : self.val_bytes ≤ length val) (v : World)
    (same : v.heap
      ≡ copied w.heap f.entry.at (found_node is user f).cell self.val_bytes (some val)) where
  abbrev n : ℕ
  n = self.val_bytes

  abbrev q : Ptr
  q = f.entry.at

  abbrev new : Entry
  new = record f.entry { val = take n val }

  abbrev old_node : IsNode w.heap q f.entry.key (first f.behind self.tail)
  old_node = found_node is user f

  abbrev new_cell : Cell
  new_cell = with_val n (some val) old_node.cell

  elsewhere : (a : Ptr) → a ≢ q → v.heap a ≡ w.heap a
  elsewhere a ne = ap (λ h. h a) same ∙ copied_other w.heap q old_node.cell n (some val) a ne

  here : Holds v.heap q new_cell
  here =
      subst (λ h. Holds h q new_cell) (sym same)
        (copied_here w.heap q old_node.cell n (some val) old_node.holds)

  new_node : IsNode v.heap q f.entry.key (first f.behind self.tail)
  new_node = record {
    cell = new_cell;
    holds = here;
    is_next = old_node.is_next;
    is_key = old_node.is_key;
  }

  split-Span : Span w.heap n self.head key_min (f.before ++ f.entry ∷ f.behind) self.tail
  split-Span = subst (λ xs. Span w.heap n self.head key_min xs self.tail) f.split is.span

  before-Span :
      Span w.heap n
        (at_end self.head f.before)
        (key_end key_min f.before)
        (f.entry ∷ f.behind)
        self.tail
  before-Span =
      Span-rest w.heap n self.head key_min f.before (f.entry ∷ f.behind) self.tail split-Span

  not_before : q ∉ self.head ∷ ats f.before
  not_before =
      Span-below w.heap n self.head key_min f.before (f.entry ∷ f.behind) self.tail split-Span
        old_node before-Span.1

  not_behind : (a : Ptr) → a ∈ ats f.behind → q ≢ a
  not_behind a m =
      mem_ne q a (ats f.behind)
        (Span-not_behind w.heap n q f.entry.key f.behind self.tail (found-Span is user f).0).0 m

  ne_before : (a : Ptr) → a ∈ self.head ∷ ats f.before → a ≢ q
  ne_before a m = ground (arith, mem_ne q a (self.head ∷ ats f.before) not_before)

  new-Span : Span v.heap n self.head key_min (f.before ++ new ∷ f.behind) self.tail
  new-Span =
      Span-replace w.heap v.heap n self.head key_min f.before (f.entry ∷ f.behind) (new ∷ f.behind)
        self.tail split-Span (λ b m ne. elsewhere b (ne_before b m))
        (λ b m. ap bytes_of (elsewhere b (ne_before b (ground arith))))
        (
          IsNode-frame (elsewhere _ (ne_before _ (at_end-mem self.head f.before))) before-Span.0,
          before-Span.1,
          record {
            bytes = new_cell.bytes;
            is_bytes = bytes_at-Holds v.heap q new_cell here;
            is_val = val-with_val n val old_node.cell (found_room is user f) long;
          },
          Span-reroot w.heap v.heap n q f.entry.key q f.entry.key f.behind self.tail
              (found-Span is user f).0 new_node
              (Span-not_behind w.heap n q f.entry.key f.behind self.tail (found-Span is user f).0).1
              (λ c m. elsewhere c (λ e. not_behind c m (sym e))),
        )

  new_cells : (a : Ptr) → a ∈ out → (c : Cell) × Holds v.heap a c
  new_cells a m = elim (Bool-cases (a == q)) [
    | inl at ↦ (new_cell, subst (λ x. Holds v.heap x new_cell) (ground arith) here)
    | inr other ↦
        let (c, holds) = is.pool.cells a m in
        (c, record { ne_null = holds.ne_null; cell = elsewhere a (ground arith) ∙ holds.cell })
  ]

  new_bytes :
      (a : Ptr) (b : List ℕ)
      → bytes_at v.heap a ≡ some b
      → (old : List ℕ) × (bytes_at w.heap a ≡ some old) × (length b ≡ length old)
  new_bytes a b e = elim (Bool-cases (a == q)) [
    | inl at ↦
        let is_q : a ≡ q = ground arith in
        let eq : some b ≡ some new_cell.bytes =
          sym e ∙ ap (bytes_at v.heap) is_q ∙ bytes_at-Holds v.heap q new_cell here in
        let same_bytes : b ≡ new_cell.bytes = cc in
        (
          old_node.cell.bytes,
          ap (bytes_at w.heap) is_q ∙ bytes_at-Holds w.heap q old_node.cell old_node.holds,
          ap length same_bytes
              ∙ length-with_val n (some val) old_node.cell (found_room is user f) long,
        )
    | inr other ↦ (b, sym (ap bytes_of (elsewhere a (ground arith))) ∙ e, refl)
  ]

  updated-IsList : IsList v self (f.before ++ new ∷ f.behind) p free out
  updated-IsList = record {
    pool =
        IsPool-used w v is.pool (λ a m. elsewhere a (ground (arith, found_used is user f)))
          new_cells;
    span = new-Span;
    last =
        IsNode-frame
          (elsewhere self.tail
            (IsNode-ne is.last old_node (omega (arith, user.below_max, f.is_key))))
          is.last;
    below = ground (
      arith,
      is.below,
      key_end-middle key_min f.before f.entry new f.behind,
      ap (λ xs. key_end key_min xs) f.split,
    );
    used = λ a. ground (
      arith,
      is.used a,
      ats-middle f.before f.entry new f.behind a,
      ap (λ xs. has a (ats xs)) f.split,
    );
    used_count = omega (
      arith,
      is.used_count,
      ap length f.split,
      length-append f.before (f.entry ∷ f.behind),
      length-append f.before (new ∷ f.behind),
    );
    room = λ a b m e.
        let (old, was, same_length) = new_bytes a b e in
        omega (arith, same_length, is.room a old m was);
  }

-- What `list_update` returns and leaves, by what the map holds at the key.
abbrev pub UpdatePost :
    World
    → LockFreeList
    → List Entry
    → Ptr
    → (free out : List Ptr) → ℕ
    → List ℕ
    → Option (List ℕ)
    → Status × ℕ
    → World
    → Type 0
UpdatePost w self es p free out key val none (s, r) v =
    (s ≡ failure) × (r ≡ 0) × (v ≡ record w { errno = enoent })
UpdatePost w self es p free out key val (some old) (s, r) v =
    (es' : List Entry) × (s ≡ success)
    × (r ≡ 0)
    × IsList v self es' p free out
    × (items es' ≡ set key (take self.val_bytes val) (items es))
    × ((a : Ptr) → a ∉ out → v.heap a ≡ w.heap a)
    × (v.blocks ≡ w.blocks)
    × (v.errno ≡ w.errno)
    × (length v.spurious ≤ length w.spurious)

-- On a list that nobody reads, for a user's key, a whole value at `val`, and fuel above the number
-- of entries and of spurious failures ahead, `list_update` ends without a fault, and again nobody
-- reads. A key that is there succeeds: the list then holds the map with the new value, over the
-- same fragments, and cells that are not in use, the blocks and the error number are as they were.
-- Any other key fails with ENOENT, and nothing but the error number changes.
pub update-Updated :
    {w : World} {self : LockFreeList} {es : List Entry} {p : Ptr} {free out : List Ptr}
    (fuel key : ℕ) (val : List ℕ)
    → IsList w self es p free out
    → IsUserKey key
    → self.val_bytes ≤ length val
    → length es + length w.spurious < fuel
    → Returns
        (UpdatePost w self es p free out key val (find key (items es)))
        (list_update fuel 0 self key (some val) w)
unfolding list_update
update-Updated {w} {self} {out} fuel key val is user long lt = elim (place_key is user) [
  | inr m ↦
      rw (search_node-Missing is user fuel (omega (arith, lt)) m, m.find_is)
        (returns (refl, refl, refl))
  | inl f ↦
      let node_ = found_node is user f in
      let ne : (f.entry.at == null) ≡ false = ground (arith, node_.holds.ne_null) in
      rw (search_node-found is user f fuel (omega (arith, lt)), ne, f.find_is)
        (Returns.bind
          (write_val-Written fuel self.val_bytes (some val) w node_.holds (found_room is user f)
            long (omega (arith, lt)))
          λ r v (zero_, same, blocks, errno, fewer). returns (
            f.before ++ (record f.entry { val = take self.val_bytes val }) ∷ f.behind,
            refl,
            zero_,
            updated-IsList is user f val long v same,
            sym (f.set_is (take self.val_bytes val)),
            (λ a m. elsewhere is user f val long v same a (ground (arith, found_used is user f))),
            blocks,
            errno,
            fewer,
          ))
]
