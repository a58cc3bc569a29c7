-- ===== src/LockFree/Refine.antt =====
-- Every sequence of calls on a list of src/collections.c gives the answers of a bounded finite map,
-- where no compare-exchange fails spuriously.
use coop_tasks.Base.{
  ℕ, suc, ◌+◌, ◌<◌, ◌≤◌, ◌≡◌, refl, ap, subst, ◌∙◌, true, false, Option, none, some, List, [], ◌∷◌,
  arith, ltb, length, inl, inr, Option-cases,
}
use coop_tasks.Heap.{Ptr, World, Run}
use coop_tasks.Heap.Returns
use coop_tasks.Heap.Returns.{Returns, returns}
use coop_tasks.LockFree.Defs.{LockFreeList}
use coop_tasks.LockFree.Span.{Entry}
use coop_tasks.LockFree.Spec.{Items, items, find}
use coop_tasks.LockFree.Inv.{IsList, IsUserKey, IsList-same}
use coop_tasks.LockFree.Lookup.{Looked, search-Looked}
use coop_tasks.LockFree.Update.{UpdatePost, update-Updated}
use coop_tasks.LockFree.Insert.{InsertPost, insert-Inserted, insert-full, insert-exists}
use coop_tasks.LockFree.Delete.{DeletePost, delete-Deleted, no_more}
use coop_tasks.LockFree.Calls.{
  MapCall, insert, delete, search_for, update, value, map_call, map_run, list_call, list_run,
  key_of, bytes_of_call, ProperCalls, RepresentsMap, MapAgrees,
}

-- A postcondition by what the map holds, where that is known.
known :
    {A : Type 0} {o o' : Option (List ℕ)} {c : Run A} (P : Option (List ℕ) → A → World → Type 0)
    → o ≡ o'
    → Returns (P o) c
    → Returns (P o') c
known {c} P is r = subst (λ x. Returns (P x) c) is r

pub length-items : (es : List Entry) → length (items es) ≡ length es
length-items [] = refl
length-items (e ∷ es) = omega (arith, length-items es)

pub represents_map :
    {w : World} {self : LockFreeList} {es : List Entry} {p : Ptr} {free out : List Ptr}
    {n capacity : ℕ} {its : Items}
    → IsList w self es p free out
    → items es ≡ its
    → self.val_bytes ≡ n
    → self.pool.capacity ≡ capacity + 2
    → w.spurious ≡ []
    → RepresentsMap w self n capacity its
represents_map {es} {p} {free} {out} is items_are size room quiet = record {
  entries = es;
  first_free = p;
  free = free;
  out = out;
  is = is;
  items_are = items_are;
  size = size;
  room = room;
  quiet = quiet;
}

-- The number of free fragments is the room that is left.
room_left :
    {w : World} {self : LockFreeList} {es : List Entry} {p : Ptr} {free out : List Ptr}
    (capacity : ℕ)
    → IsList w self es p free out
    → self.pool.capacity ≡ capacity + 2
    → length free + length (items es) ≡ capacity
room_left {es} capacity is room = omega (arith, is.pool.count, is.used_count, length-items es, room)

-- A call of the list `self`, which holds `es`, gives what the map does.
abbrev Agreed : World → LockFreeList → List Entry → (capacity fuel : ℕ) → MapCall → Type 0
Agreed w self es capacity fuel c =
    Returns (MapAgrees self.val_bytes capacity (map_call self.val_bytes capacity c (items es)))
      (list_call fuel self.val_bytes c (self, 0) w)

module _ (w : World) (self : LockFreeList) (es : List Entry) (p : Ptr) (out : List Ptr)
    (capacity fuel : ℕ) (room : self.pool.capacity ≡ capacity + 2) (quiet : w.spurious ≡ [])
    (key : ℕ) (val : List ℕ) (user : IsUserKey key) (long : self.val_bytes ≤ length val)
    (lt : length es + length w.spurious < suc fuel) where
  insert_new :
      (free : List Ptr)
      → IsList w self es p free out
      → find key (items es) ≡ none
      → Agreed w self es capacity (suc fuel) (insert key val)
  unfolding list_call map_call
  insert_new [] is missing =
      let no_room : ltb (length (items es)) capacity ≡ false =
        ground (arith, room_left capacity is room) in
      rw (missing, no_room, insert-full (suc fuel) key val is user (omega (arith, lt)) missing)
        (returns (refl, refl, represents_map (IsList-same is refl) refl refl room quiet))
  insert_new (q ∷ free) is missing =
      let has_room : ltb (length (items es)) capacity ≡ true =
        ground (arith, room_left capacity is room) in
      rw (missing, has_room)
        (Returns.bind
          (known (InsertPost w self es p q free out key val) missing
            (insert-Inserted (suc fuel) key val is user long lt))
          λ (s, l) v (es', done, is', put_is, size, config, others, blocks, errno, fewer). rw done (
            returns (
              refl,
              refl,
              represents_map is' put_is size (config ∙ room)
                  (no_more v.spurious (ground (arith, fewer, quiet))),
            )))

  module _ {free : List Ptr} (is : IsList w self es p free out) where
    insert-Agreed : Agreed w self es capacity (suc fuel) (insert key val)
    unfolding list_call map_call
    insert-Agreed = elim (Option-cases (find key (items es))) [
      | inr (old, found) ↦
          rw (found, insert-exists (suc fuel) key val is user (omega (arith, lt)) found)
            (returns (refl, refl, represents_map (IsList-same is refl) refl refl room quiet))
      | inl missing ↦ insert_new free is missing
    ]

    search-Agreed : Agreed w self es capacity (suc fuel) (search_for key val)
    unfolding list_call map_call
    search-Agreed =
        let looked = search-Looked (suc fuel) 0 key (some val) is user long (omega arith) lt in
        elim (Option-cases (find key (items es))) [
          | inl missing ↦ rw missing (
              Returns.bind (known (Looked w self.val_bytes 0 (some val)) missing looked)
                λ (s, b, r) v (failed, same, kept, left).
                  rw (failed, left)
                    (returns
                      (refl, kept, represents_map (IsList-same is refl) refl refl room quiet)))
          | inr (item, found) ↦ rw found (
              Returns.bind (known (Looked w self.val_bytes 0 (some val)) found looked)
                λ (s, b, r) v (done, (got, at, front_is, _), kept, only).
                  rw (done, at)
                    (returns (
                      ap value front_is,
                      kept,
                      represents_map (IsList-same is only.heap) refl refl room
                          (no_more v.spurious (ground (arith, only.fewer, quiet))),
                    )))
        ]

    update-Agreed : Agreed w self es capacity (suc fuel) (update key val)
    unfolding list_call map_call
    update-Agreed =
        let done_ = update-Updated (suc fuel) key val is user long lt in
        elim (Option-cases (find key (items es))) [
          | inl missing ↦ rw missing (
              Returns.bind (known (UpdatePost w self es p free out key val) missing done_)
                λ (s, r) v (failed, kept, left).
                  rw (failed, left)
                    (returns
                      (refl, kept, represents_map (IsList-same is refl) refl refl room quiet)))
          | inr (old, found) ↦ rw found (
              Returns.bind (known (UpdatePost w self es p free out key val) found done_)
                λ (s, r) v (es', done, kept, is', set_is, others, blocks, errno, fewer). rw done (
                  returns (
                    refl,
                    kept,
                    represents_map is' set_is refl room
                        (no_more v.spurious (ground (arith, fewer, quiet))),
                  )))
        ]

    delete-Agreed : Agreed w self es capacity (suc fuel) (delete key val)
    unfolding list_call map_call
    delete-Agreed =
        let deleted =
          delete-Deleted fuel 0 key (some val) is user long (omega arith) quiet
            (omega (arith, lt)) in
        elim (Option-cases (find key (items es))) [
          | inl missing ↦ rw missing (
              Returns.bind
                (known (DeletePost w 0 self es p free out key (some val)) missing deleted)
                λ (s, l, b, r) v (failed, kept_list, same, kept, left).
                  rw (failed, left, kept_list)
                    (returns
                      (refl, kept, represents_map (IsList-same is refl) refl refl room quiet)))
          | inr (item, found) ↦ rw found (
              Returns.bind (known (DeletePost w 0 self es p free out key (some val)) found deleted)
                λ (s, l, b, r) v
                    (
                      es',
                      q,
                      done,
                      is',
                      _,
                      rest,
                      (got, at, front_is, _),
                      kept,
                      size,
                      config,
                      others,
                      blocks,
                      errno,
                      no_answers,
                    ).
                  rw (done, at)
                    (returns (
                      ap value front_is,
                      kept,
                      represents_map is' rest size (config ∙ room) no_answers,
                    )))
        ]

module _ (w : World) (self : LockFreeList) (es : List Entry) (p : Ptr) (out : List Ptr)
    (capacity fuel : ℕ) (room : self.pool.capacity ≡ capacity + 2) (quiet : w.spurious ≡ []) where
  call-Agreed :
      (c : MapCall) {free : List Ptr}
      → IsUserKey (key_of c)
      → self.val_bytes ≤ length (bytes_of_call c)
      → length es + length w.spurious < suc fuel
      → IsList w self es p free out
      → Agreed w self es capacity (suc fuel) c
  call-Agreed (insert k b) user long lt is =
      insert-Agreed w self es p out capacity fuel room quiet k b user long lt is
  call-Agreed (delete k b) user long lt is =
      delete-Agreed w self es p out capacity fuel room quiet k b user long lt is
  call-Agreed (search_for k b) user long lt is =
      search-Agreed w self es p out capacity fuel room quiet k b user long lt is
  call-Agreed (update k b) user long lt is =
      update-Agreed w self es p out capacity fuel room quiet k b user long lt is

-- A call on a list that represents `its` gives the answer of the map.
list_call-Agrees :
    (c : MapCall) {w : World} {self : LockFreeList} {n capacity : ℕ} {its : Items} (fuel : ℕ)
    → RepresentsMap w self n capacity its
    → capacity ≤ fuel
    → IsUserKey (key_of c)
    → n ≤ length (bytes_of_call c)
    → Returns
        (MapAgrees n capacity (map_call n capacity c its))
        (list_call (suc fuel) n c (self, 0) w)
list_call-Agrees c {w} {self} {n} {capacity} {its} fuel rep enough user long =
    let lt : length rep.entries + length w.spurious < suc fuel = omega (
      arith,
      room_left capacity rep.is rep.room,
      length-items rep.entries,
      ap length rep.quiet,
      enough,
    ) in
    let long' : self.val_bytes ≤ length (bytes_of_call c) = omega (arith, rep.size, long) in
    let agreed =
      call-Agreed w self rep.entries rep.first_free rep.out capacity fuel rep.room rep.quiet c user
        long' lt rep.is in
    subst
      (λ k.
        Returns (MapAgrees k capacity (map_call k capacity c its))
          (list_call (suc fuel) k c (self, 0) w))
      rep.size
      (subst
        (λ xs.
          Returns (MapAgrees self.val_bytes capacity (map_call self.val_bytes capacity c xs))
            (list_call (suc fuel) self.val_bytes c (self, 0) w))
        rep.items_are agreed)

-- On a list that holds the items `its` of the map, with room for `capacity` values of `n` bytes,
-- while nobody reads, no compare-exchange fails spuriously and the fuel is above the capacity:
-- every sequence of insertions, deletions, searches and updates, each with a user's key and `n`
-- bytes or more at `val`, ends, without a fault and within its fuel, with the answers of the
-- bounded map; the list then holds the map's items, and nobody reads.
pub list_run-Agrees :
    (cs : List MapCall) {w : World} {self : LockFreeList} {n capacity : ℕ} {its : Items} (fuel : ℕ)
    → RepresentsMap w self n capacity its
    → capacity ≤ fuel
    → ProperCalls n cs
    → Returns
        (MapAgrees n capacity (map_run n capacity cs its))
        (list_run (suc fuel) n cs (self, 0) w)
unfolding list_run map_run
list_run-Agrees [] fuel rep enough proper = returns (refl, refl, rep)
list_run-Agrees (c ∷ cs) {n} {capacity} {its} fuel rep enough (user, long, proper) =
    Returns.bind (list_call-Agrees c fuel rep enough user long)
      λ (a, (l, r)) v (same, none_left, rep').
        rw (same, none_left)
          (Returns.bind (list_run-Agrees cs fuel rep' enough proper)
            λ (as_, (l', r')) u (same', none_left', rep'').
              returns (ap (◌∷◌ ((map_call n capacity c its).0)) same', none_left', rep''))
