-- ===== src/LockFree/Inserted.antt =====
-- A list after a node was linked is a list.
use coop_tasks.Base.{
  ℕ, ◌+◌, ◌<◌, ◌≤◌, ◌≡◌, ◌≢◌, ◌∈◌, ◌∉◌, refl, sym, ap, subst, ◌∙◌, some, List, [], ◌∷◌, ◌++◌, arith,
  ◌==◌, length, take, has, inl, inr, Bool-cases, length-append, mem_ne,
}
use coop_tasks.Heap.{Ptr, node, Cell, World}
use coop_tasks.Heap.Access.{Holds}
use coop_tasks.Heap.Chain.{bytes_at, bytes_of}
use coop_tasks.LockFree.Defs.{LockFreeList}
use coop_tasks.LockFree.Ops.{key_min, key_max}
use coop_tasks.LockFree.Span.{
  Entry, ats, IsNode, IsNode-frame, IsNode-ne, Span, Span-IsNode, Span-replace, Span-frame, first,
  at_end, key_end, upto, from, upto-from,
}
use coop_tasks.LockFree.Search.{Ends}
use coop_tasks.LockFree.Spec.{Missing}
use coop_tasks.LockFree.Inv.{IsList, IsUserKey, IsList-Ends, rest-Span}
use coop_tasks.LockFree.Values.{with_val, val-with_val, length-with_val}
use coop_tasks.LockFree.Change.{
  Above-from, Span-reroot, Span-not_behind, IsPool-used, ats-append, at_end-mem,
}
use coop_tasks.LockFree.Alloc.{blank, NodeMade}
use coop_tasks.LockFree.Link.{Linked}

-- Where a key stands among the entries.
pub upto-from_again : (key : ℕ) (es : List Entry) → upto key (from key es) ≡ []
upto-from_again key [] = refl
upto-from_again key (e ∷ es) = ground (arith, upto-from_again key es)

pub from-from : (key : ℕ) (es : List Entry) → from key (from key es) ≡ from key es
from-from key [] = refl
from-from key (e ∷ es) = ground (arith, from-from key es)

pub key_end-upto : (k key : ℕ) (es : List Entry) → k ≤ key → key_end k (upto key es) ≤ key
key_end-upto k key [] le = le
key_end-upto k key (e ∷ es) le = ground (arith, key_end-upto e.key key es)

pub length-from : (key : ℕ) (es : List Entry) → length (from key es) ≤ length es
length-from key [] = omega arith
length-from key (e ∷ es) = ground (arith, length-from key es)

pub key_end-insert :
    (k m : ℕ) (l : List Entry) (e : Entry) (r : List Entry)
    → e.key < m
    → key_end k (l ++ r) < m
    → key_end k (l ++ e ∷ r) < m
key_end-insert k m [] e [] lt below = lt
key_end-insert k m [] e (x ∷ r) lt below = below
key_end-insert k m (x ∷ l) e r lt below = key_end-insert x.key m l e r lt below

module _ {w : World} {self : LockFreeList} {es : List Entry} {p q : Ptr} {free out : List Ptr}
    (is : IsList w self es p (q ∷ free) out) {key : ℕ} (user : IsUserKey key)
    (m : Missing key_min key es) (val : List ℕ) (long : self.val_bytes ≤ length val) {u : World}
    {o : Ptr × LockFreeList} (made : NodeMade w self p q free out key (some val) o u) where
  abbrev pub n : ℕ
  n = self.val_bytes

  abbrev pub prev : Ptr
  prev = at_end self.head (upto key es)

  abbrev pub low : ℕ
  low = key_end key_min (upto key es)

  abbrev pub rest : List Entry
  rest = from key es

  abbrev pub new : Entry
  new = record { at = p; key = key; val = take n val }

  abbrev pub new_cell : Cell
  new_cell = with_val n (some val) (blank key made.old)

  pub low-lt : low < key
  low-lt = omega (arith, m.end_ne, key_end-upto key_min key es (omega arith))

  pub fresh : p ∉ out
  fresh = made.pool.distinct.0

  pub same_ats : (a : Ptr) → has a (ats (upto key es ++ rest)) ≡ has a (ats es)
  same_ats a = ap (λ xs. has a (ats xs)) (upto-from key es)

  pub owned_before : (a : Ptr) → a ∈ self.head ∷ ats (upto key es) → a ∈ out
  owned_before a b = ground (arith, is.used a, ats-append (upto key es) rest a, same_ats a)

  pub owned_behind : (a : Ptr) → a ∈ prev ∷ ats rest → a ∈ out
  owned_behind a b = ground (
    arith,
    is.used a,
    ats-append (upto key es) rest a,
    same_ats a,
    owned_before prev (at_end-mem self.head (upto key es)),
  )

  pub ne_new : (a : Ptr) → a ∈ out → a ≢ p
  ne_new a b e = mem_ne p a out fresh b (sym e)

  pub not_new : p ∉ prev ∷ ats rest
  not_new = elim (Bool-cases (has p (prev ∷ ats rest))) [
    | inl there ↦ absurd (mem_ne p p out fresh (owned_behind p there) refl)
    | inr not_there ↦ not_there
  ]

  pub tail_out : self.tail ∈ out
  tail_out = ground (arith, is.used self.tail)

  -- The list before `p` is linked.
  pub u-Span : Span u.heap n prev low rest self.tail
  u-Span =
      Span-frame w.heap u.heap n prev low rest self.tail
        (λ a b. made.others a (ne_new a (owned_behind a b))) (rest-Span is key)

  pub u_Ends : Ends u self.tail key
  u_Ends =
      let ends = IsList-Ends is key user.below_max in
      record {
        bound = ends.bound;
        next = ends.next;
        is = IsNode-frame (made.others self.tail (ne_new self.tail tail_out)) ends.is;
        above = ends.above;
      }

  abbrev pub u_prev : IsNode u.heap prev low (first rest self.tail)
  u_prev = Span-IsNode u.heap n prev low rest self.tail u-Span

  module _ {v : World} (done : Linked u prev p u_prev.cell new_cell (first rest self.tail) v) where
    pub elsewhere : (a : Ptr) → a ≢ p → a ≢ prev → v.heap a ≡ w.heap a
    elsewhere a ne ne_prev = done.others a ne ne_prev ∙ made.others a ne

    pub old_bytes : (a : Ptr) → a ≢ p → bytes_at v.heap a ≡ bytes_at w.heap a
    old_bytes a ne = elim (Bool-cases (a == prev)) [
      | inl here ↦
          let at : a ≡ prev = ground arith in
          ap (bytes_at v.heap) at
          ∙ ap bytes_of done.at_prev
          ∙ sym (ap bytes_of u_prev.holds.cell)
          ∙ sym (ap (bytes_at u.heap) at)
          ∙ ap bytes_of (made.others a ne)
      | inr other ↦ ap bytes_of (elsewhere a ne (ground arith))
    ]

    pub v_prev : IsNode v.heap prev low p
    v_prev = record {
      cell = record u_prev.cell { next = node 0 p };
      holds = record { ne_null = u_prev.holds.ne_null; cell = done.at_prev };
      is_next = refl;
      is_key = u_prev.is_key;
    }

    pub v_new : IsNode v.heap p key (first rest self.tail)
    v_new = record {
      cell = record new_cell { next = node 0 (first rest self.tail) };
      holds = record { ne_null = made.holds.ne_null; cell = done.at_p };
      is_next = refl;
      is_key = refl;
    }

    pub room_new : (b : List ℕ) → bytes_at v.heap p ≡ some b → n + 16 ≤ length b
    room_new b e =
        let eq : some b ≡ some new_cell.bytes = sym e ∙ ap bytes_of done.at_p in
        let same : b ≡ new_cell.bytes = cc in
        let room = is.room p made.old.bytes (ground arith) made.was in
        omega
          (arith, ap length same, length-with_val n (some val) (blank key made.old) room long, room)

    pub new-Span : Span v.heap n self.head key_min (upto key es ++ new ∷ rest) self.tail
    new-Span =
        Span-replace w.heap v.heap n self.head key_min (upto key es) rest (new ∷ rest) self.tail
          (subst (λ xs. Span w.heap n self.head key_min xs self.tail) (sym (upto-from key es))
            is.span)
          (λ b there ne. elsewhere b (ne_new b (owned_before b there)) ne)
          (λ b there. old_bytes b (ne_new b (owned_before b (ground arith))))
          (
            v_prev,
            low-lt,
            record {
              bytes = new_cell.bytes;
              is_bytes = ap bytes_of done.at_p;
              is_val =
                  val-with_val n val (blank key made.old)
                    (is.room p made.old.bytes (ground arith) made.was) long;
            },
            Span-reroot w.heap v.heap n prev low p key rest self.tail (rest-Span is key) v_new
                (Above-from key es)
                (λ c there. elsewhere c (ne_new c (owned_behind c (ground arith))) (λ e.
                  mem_ne prev c (ats rest)
                    (Span-not_behind w.heap n prev low rest self.tail (rest-Span is key)).0 there
                    (sym e))),
          )

    pub new_cells : (a : Ptr) → a ∈ p ∷ out → (c : Cell) × Holds v.heap a c
    new_cells a b = elim (Bool-cases (a == p)) [
      | inl here ↦ (v_new.cell, subst (λ x. Holds v.heap x v_new.cell) (ground arith) v_new.holds)
      | inr other ↦ elim (Bool-cases (a == prev)) [
        | inl here ↦
            (v_prev.cell, subst (λ x. Holds v.heap x v_prev.cell) (ground arith) v_prev.holds)
        | inr neither ↦
            let (c, holds) = is.pool.cells a (ground arith) in
            (
              c,
              record {
                ne_null = holds.ne_null;
                cell = elsewhere a (ground arith) (ground arith) ∙ holds.cell;
              },
            )
      ]
    ]

    pub inserted-IsList :
        IsList v (record self { pool = made.new_pool }) (upto key es ++ new ∷ rest) q free (p ∷ out)
    inserted-IsList = record {
      pool =
          IsPool-used u v made.pool
            (λ a b.
              done.others a (ground arith)
                (ground (arith, owned_before prev (at_end-mem self.head (upto key es)))))
            new_cells;
      span = new-Span;
      last =
          IsNode-frame
            (elsewhere self.tail (ne_new self.tail tail_out) (
              IsNode-ne is.last (Span-IsNode w.heap n prev low rest self.tail (rest-Span is key))
                (omega (arith, low-lt, user.below_max))))
            is.last;
      below =
          key_end-insert key_min key_max (upto key es) new rest user.below_max
            (subst (λ xs. key_end key_min xs < key_max) (sym (upto-from key es)) is.below);
      used = λ a. ground (
        arith,
        is.used a,
        ats-append (upto key es) rest a,
        ats-append (upto key es) (new ∷ rest) a,
        same_ats a,
      );
      used_count = omega (
        arith,
        is.used_count,
        length-append (upto key es) rest,
        length-append (upto key es) (new ∷ rest),
        ap length (upto-from key es),
      );
      room = λ a b there e. elim (Bool-cases (a == p)) [
        | inl here ↦ let at : a ≡ p = ground arith in room_new b (sym (ap (bytes_at v.heap) at) ∙ e)
        | inr other ↦ is.room a b (ground arith) (sym (old_bytes a (ground arith)) ∙ e)
      ];
    }
