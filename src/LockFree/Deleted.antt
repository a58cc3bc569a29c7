-- ===== src/LockFree/Deleted.antt =====
-- A list after a node was unlinked and freed is a list.
use coop_tasks.Base.{
  ℕ, ◌<◌, ◌≤◌, ◌≡◌, ◌≢◌, ◌∈◌, ◌∉◌, refl, sym, ap, subst, ◌∙◌, some, List, [], ◌∷◌, ◌++◌, arith,
  ◌==◌, length, has, inl, inr, Bool-cases, length-append, mem_ne, erase, has-erase, length-erase,
  has-append,
}
use coop_tasks.Heap.{Ptr, node, Heap, Cell, World}
use coop_tasks.Heap.Access.{Holds, Holds-of_bytes, bytes_at-Holds}
use coop_tasks.Heap.Chain.{bytes_at, bytes_of, last, last-mem}
use coop_tasks.Mempool.{Pool, IsPool, Put}
use coop_tasks.Msq.{OnlyAnswers}
use coop_tasks.LockFree.Defs.{LockFreeList}
use coop_tasks.LockFree.Ops.{key_min}
use coop_tasks.LockFree.Span.{
  Entry, ats, IsNode, IsNode-frame, IsNode-ne, Span, Span-IsNode, Span-rest, Span-replace, first,
  at_end, key_end,
}
use coop_tasks.LockFree.Spec.{Found, Rising, Span-Rising}
use coop_tasks.LockFree.Inv.{IsList, IsUserKey}
use coop_tasks.LockFree.Lookup.{found_node, found-Span, found_used}
use coop_tasks.LockFree.Change.{
  Above, Span-below, Span-reroot, Span-not_behind, IsPool-used, ats-append, at_end-mem,
}
use coop_tasks.LockFree.Unlink.{Unlinked}

pub key_end-delete :
    (k : ℕ) (l : List Entry) (e : Entry) (r : List Entry)
    → Rising k (l ++ e ∷ r)
    → key_end k (l ++ r) ≤ key_end k (l ++ e ∷ r)
key_end-delete k [] e [] rising = omega (arith, rising.0)
key_end-delete k [] e (x ∷ r) rising = omega arith
key_end-delete k (x ∷ l) e r rising = key_end-delete x.key l e r rising.1

pub Above-mono : {k m : ℕ} (r : List Entry) → k < m → Above m r → Above k r
Above-mono [] lt up = tt
Above-mono (e ∷ r) lt up = omega arith

-- A node is a cell with its next one.
pub node_cell :
    {h : Heap} {a : Ptr} {k : ℕ} {next : Ptr} (is : IsNode h a k next)
    → Holds h a (record is.cell { next = node 0 next })
node_cell {h} {a} {next} is = record {
  ne_null = is.holds.ne_null;
  cell = is.holds.cell ∙ ap (λ n. some (record is.cell { next = n })) is.is_next;
}

module _ {w : World} {self : LockFreeList} {es : List Entry} {p : Ptr} {free out : List Ptr}
    (is : IsList w self es p free out) {key : ℕ} (user : IsUserKey key) (f : Found key es) where
  abbrev pub n : ℕ
  n = self.val_bytes

  abbrev pub q : Ptr
  q = f.entry.at

  abbrev pub prev : Ptr
  prev = at_end self.head f.before

  abbrev pub low : ℕ
  low = key_end key_min f.before

  abbrev pub next : Ptr
  next = first f.behind self.tail

  abbrev pub q_node : IsNode w.heap q f.entry.key next
  q_node = found_node is user f

  pub split-Span : Span w.heap n self.head key_min (f.before ++ f.entry ∷ f.behind) self.tail
  split-Span = subst (λ xs. Span w.heap n self.head key_min xs self.tail) f.split is.span

  pub prev-Span : Span w.heap n prev low (f.entry ∷ f.behind) self.tail
  prev-Span =
      Span-rest w.heap n self.head key_min f.before (f.entry ∷ f.behind) self.tail split-Span

  abbrev pub prev_node : IsNode w.heap prev low q
  prev_node = Span-IsNode w.heap n prev low (f.entry ∷ f.behind) self.tail prev-Span

  pub not_before : q ∉ self.head ∷ ats f.before
  not_before =
      Span-below w.heap n self.head key_min f.before (f.entry ∷ f.behind) self.tail split-Span
        q_node prev-Span.1

  pub not_behind : (q ∉ ats f.behind) × Above f.entry.key f.behind
  not_behind = Span-not_behind w.heap n q f.entry.key f.behind self.tail (found-Span is user f).0

  pub not_prev : q ≢ prev
  not_prev = mem_ne q prev (self.head ∷ ats f.before) not_before (at_end-mem self.head f.before)

  pub not_tail : q ≢ self.tail
  not_tail = IsNode-ne q_node is.last (omega (arith, user.below_max, f.is_key))

  pub same_ats : (a : Ptr) → has a (ats es) ≡ has a (ats (f.before ++ f.entry ∷ f.behind))
  same_ats a = ap (λ xs. has a (ats xs)) f.split

  pub owned_before : (a : Ptr) → a ∈ self.head ∷ ats f.before → a ∈ out
  owned_before a b =
      ground (arith, is.used a, ats-append f.before (f.entry ∷ f.behind) a, same_ats a)

  pub owned_behind : (a : Ptr) → a ∈ ats f.behind → a ∈ out
  owned_behind a b =
      ground (arith, is.used a, ats-append f.before (f.entry ∷ f.behind) a, same_ats a)

  pub not_last : (a : Ptr) → a ∈ out → a ≢ last p free
  not_last a m = mem_ne a (last p free) (p ∷ free) (is.pool.apart a m) (last-mem p free)

  module _ {u : World} (gone : Unlinked w prev q prev_node.cell q_node.cell next u) where
    pub prev_not_behind : prev ∉ q ∷ ats f.behind
    prev_not_behind = (Span-not_behind w.heap n prev low (f.entry ∷ f.behind) self.tail prev-Span).0

    pub gone_bytes : (a : Ptr) → bytes_at u.heap a ≡ bytes_at w.heap a
    gone_bytes a = elim (Bool-cases (a == q)) [
      | inl here ↦
          let at : a ≡ q = ground arith in
          ap (bytes_at u.heap) at
          ∙ ap bytes_of gone.at_q
          ∙ sym (ap bytes_of q_node.holds.cell)
          ∙ sym (ap (bytes_at w.heap) at)
      | inr other ↦ elim (Bool-cases (a == prev)) [
        | inl here ↦
            let at : a ≡ prev = ground arith in
            ap (bytes_at u.heap) at
            ∙ ap bytes_of gone.at_prev
            ∙ sym (ap bytes_of prev_node.holds.cell)
            ∙ sym (ap (bytes_at w.heap) at)
        | inr neither ↦ ap bytes_of (gone.others a (ground arith) (ground arith))
      ]
    ]

    pub gone_cells : (a : Ptr) → a ∈ out → (c : Cell) × Holds u.heap a c
    gone_cells a m =
        let (c, at) = is.pool.cells a m in
        Holds-of_bytes u.heap a c.bytes at.ne_null (gone_bytes a ∙ bytes_at-Holds w.heap a c at)

    pub gone-IsPool : IsPool u self.pool p free out
    gone-IsPool =
        IsPool-used w u is.pool
          (λ a m.
            gone.others a (ground (arith, found_used is user f))
              (ground (arith, owned_before prev (at_end-mem self.head f.before))))
          gone_cells

    module _ {x : World} {pool : Pool} {v : World} (read : OnlyAnswers u x)
        (put : Put x self.pool p free out q pool v) where
      pub elsewhere : (a : Ptr) → a ≢ q → a ≢ prev → a ≢ last p free → v.heap a ≡ w.heap a
      elsewhere a ne_q ne_prev ne_last =
          put.others a ne_q ne_last ∙ ap (λ h. h a) read.heap ∙ gone.others a ne_q ne_prev

      pub bytes_same : (a : Ptr) → bytes_at v.heap a ≡ bytes_at w.heap a
      bytes_same a = put.bytes a ∙ ap (λ h. bytes_at h a) read.heap ∙ gone_bytes a

      pub v_prev : IsNode v.heap prev low next
      v_prev = record {
        cell = record prev_node.cell { next = node 0 next };
        holds = record {
          ne_null = prev_node.holds.ne_null;
          cell =
              put.others prev (λ e. not_prev (sym e))
                (not_last prev (owned_before prev (at_end-mem self.head f.before)))
              ∙ ap (λ h. h prev) read.heap
              ∙ gone.at_prev;
        };
        is_next = refl;
        is_key = prev_node.is_key;
      }

      pub Above-low : Above low f.behind
      Above-low = Above-mono f.behind prev-Span.1 not_behind.1

      pub new-Span : Span v.heap n self.head key_min (f.before ++ f.behind) self.tail
      new-Span =
          Span-replace w.heap v.heap n self.head key_min f.before (f.entry ∷ f.behind) f.behind
            self.tail split-Span
            (λ b m ne.
              elsewhere b (λ e. mem_ne q b (self.head ∷ ats f.before) not_before m (sym e)) ne
                (not_last b (owned_before b m)))
            (λ b m. bytes_same b)
            (Span-reroot w.heap v.heap n q f.entry.key prev low f.behind self.tail
              (found-Span is user f).0 v_prev Above-low
              (λ c m.
                elsewhere c (λ e. mem_ne q c (ats f.behind) not_behind.0 m (sym e))
                  (λ e. mem_ne prev c (q ∷ ats f.behind) prev_not_behind (ground arith) (sym e))
                  (not_last c (owned_behind c m))))

      pub tail_out : self.tail ∈ out
      tail_out = ground (arith, is.used self.tail)

      pub deleted-IsList :
          IsList v
            (record self { pool = pool })
            (f.before ++ f.behind)
            p
            (free ++ q ∷ [])
            (erase q out)
      deleted-IsList = record {
        pool = put.is;
        span = new-Span;
        last =
            IsNode-frame
              (elsewhere self.tail (λ e. not_tail (sym e))
                (IsNode-ne is.last prev_node (omega (arith, prev-Span.1, f.is_key, user.below_max)))
                (not_last self.tail tail_out))
              is.last;
        below = omega (
          arith,
          is.below,
          ap (λ xs. key_end key_min xs) f.split,
          key_end-delete key_min f.before f.entry f.behind (
              Span-Rising w.heap n self.head key_min (f.before ++ f.entry ∷ f.behind) self.tail
                split-Span),
        );
        used = λ a.
            has-erase q a out is.pool.distinct
            ∙ ground (
              arith,
              is.used a,
              same_ats a,
              ats-append f.before (f.entry ∷ f.behind) a,
              ats-append f.before f.behind a,
              not_before,
              not_behind.0,
              not_tail,
            );
        used_count = omega (
          arith,
          is.used_count,
          length-erase q out (found_used is user f),
          ap length f.split,
          length-append f.before (f.entry ∷ f.behind),
          length-append f.before f.behind,
        );
        room = λ a b m e.
            is.room a b
              (ground (
                arith,
                has-append a (p ∷ free) (q ∷ []),
                has-erase q a out is.pool.distinct,
                found_used is user f,
              ))
              (sym (bytes_same a) ∙ e);
      }

    -- The value that is read is the key's.
    pub gone_val : Holds u.heap q (record q_node.cell { next = node 1 next; backlink = prev })
    gone_val = record { ne_null = q_node.holds.ne_null; cell = gone.at_q }
