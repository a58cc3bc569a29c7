-- ===== src/Shared/Inv.antt =====
-- What holds of a shared pool in every interleaving, while no thread writes NULL into the first word
-- of a fragment that was handed out.
use coop_tasks.Base.{ℕ, ◌≡◌, ◌≢◌, ◌∈◌, ◌∉◌, sym, ◌∙◌, List, [], ◌∷◌, ◌++◌, Distinct}
use coop_tasks.Heap.{Ptr, null, Node}
use coop_tasks.Shared.Machine.{
  Pc, idle, putting, put_loop, put_next, put_test, put_link, put_help, put_move, put_count,
  pick_loop, pick_tail, pick_next, pick_test, pick_help, pick_unlink, pick_count, System,
}

-- The fragments from `a` on, each linked to the one behind it, and the last to NULL.
abbrev pub Line : (Ptr → Node) → Ptr → List Ptr → Type 0
Line next a [] = (next a).frag ≡ null
Line next a (b ∷ r) = ((next a).frag ≡ b) × Line next b r

-- A fragment on its way into the pool.
abbrev pub Outside : System → Ptr → Type 0
Outside s f = (f ≢ null) × (f ∈ s.given) × (f ∉ s.linked)

-- What was read as a fragment's link is its link, while it is in the pool.
abbrev pub Read : System → Ptr → Node → Type 0
Read s a n = a ∉ s.handed → n.frag ≢ null → (s.next a).frag ≡ n.frag

-- A fragment that was the head once is so still, or was handed out.
abbrev pub WasHead : System → Ptr → Type 0
WasHead s a = a ∉ s.handed → s.head.frag ≡ a

-- If that fragment is the head still, and the tail was another, the tail is another.
abbrev pub Apart : System → Ptr → Ptr → Type 0
Apart s h t = s.head.frag ≡ h → t ≢ h → s.tail.frag ≢ h

-- What a thread may rely on where it stands.
abbrev pub Local : System → Pc → Type 0
Local s (putting f) = Outside s f
Local s (put_loop f) = Outside s f × ((s.next f).frag ≡ null)
Local s (put_next f t) = Outside s f × ((s.next f).frag ≡ null) × (t.frag ∈ s.linked)
Local s (put_test f t n) =
    Outside s f × ((s.next f).frag ≡ null) × (t.frag ∈ s.linked) × Read s t.frag n
Local s (put_link f t n) =
    Outside s f × ((s.next f).frag ≡ null) × (t.frag ∈ s.linked) × (n.frag ≡ null)
Local s (put_help f t n) =
    Outside s f × ((s.next f).frag ≡ null) × (t.frag ∈ s.linked) × Read s t.frag n × (n.frag ≢ null)
Local s (put_move f t) =
    (f ≢ null)
    × (f ∈ s.linked)
    × (t.frag ∈ s.linked)
    × (t.frag ∉ s.handed → (s.next t.frag).frag ≡ f)
Local s (put_count f) = f ∈ s.linked
Local s (pick_tail h) = (h.frag ∈ s.linked) × WasHead s h.frag
Local s (pick_next h t) = (h.frag ∈ s.linked) × WasHead s h.frag × Apart s h.frag t.frag
Local s (pick_test h t n) =
    (h.frag ∈ s.linked)
    × WasHead s h.frag
    × Apart s h.frag t.frag
    × Read s h.frag n
    × (s.head.frag ≡ h.frag → t.frag ≢ h.frag → n.frag ≢ null)
Local s (pick_help h t n) =
    (h.frag ∈ s.linked) × (t.frag ≡ h.frag) × (n.frag ≢ null) × Read s h.frag n
Local s (pick_unlink h t n) =
    (h.frag ∈ s.linked)
    × WasHead s h.frag
    × (t.frag ≢ h.frag)
    × Apart s h.frag t.frag
    × Read s h.frag n
    × (s.head.frag ≡ h.frag → n.frag ≢ null)
Local s _ = Unit {0}

-- The fragment that a thread brings, until it is linked; NULL if there is none.
abbrev pub brings : Pc → Ptr
brings (putting f) = f
brings (put_loop f) = f
brings (put_next f t) = f
brings (put_test f t n) = f
brings (put_link f t n) = f
brings (put_help f t n) = f
brings _ = null

-- The invariant: those that were linked are those that were handed out and those from the head on.
pub record Inv (s : System) : Type 0 where
  pub rest : List Ptr
  pub fifo : s.linked ≡ s.handed ++ s.head.frag ∷ rest
  pub line : Line s.next s.head.frag rest
  pub tail_in : s.tail.frag ∈ s.head.frag ∷ rest
  pub distinct : Distinct s.linked
  pub no_null : null ∉ s.linked
  pub linked_given : (a : Ptr) → a ∈ s.linked → a ∈ s.given
  pub out : (a : Ptr) → a ∈ s.handed → (s.next a).frag ≢ null
  pub local : (i : ℕ) → Local s (s.pc i)
  pub apart : (i j : ℕ) → i ≢ j → brings (s.pc i) ≢ null → brings (s.pc i) ≢ brings (s.pc j)
  pub done : (a : Ptr) → a ∈ s.returned → a ∈ s.linked

-- What a change of the pool leaves for the threads that do not make it.
pub record Later (s t : System) : Type 0 where
  pub given : (a : Ptr) → a ∈ s.given → a ∈ t.given
  pub linked : (a : Ptr) → a ∈ s.linked → a ∈ t.linked
  pub handed : (a : Ptr) → a ∉ t.handed → a ∉ s.handed
  pub links :
      (a : Ptr)
      → a ∈ s.linked
      → a ∉ t.handed
      → (s.next a).frag ≢ null
      → (t.next a).frag ≡ (s.next a).frag
  pub was_head : (a : Ptr) → a ∈ s.linked → s.head.frag ≡ a → a ∉ t.handed → t.head.frag ≡ a
  pub still_head : (a : Ptr) → a ∈ s.linked → WasHead s a → t.head.frag ≡ a → s.head.frag ≡ a
  pub tail_apart : (a : Ptr) → t.head.frag ≡ a → s.head.frag ≡ a → s.tail.frag ≢ a → t.tail.frag ≢ a

-- A fragment on its way is not touched by others.
pub record Untouched (s t : System) (f : Ptr) : Type 0 where
  pub link : (t.next f).frag ≡ (s.next f).frag
  pub outside : f ∉ s.linked → f ∉ t.linked

Outside-Later : {s t : System} {f : Ptr} → Later s t → Untouched s t f → Outside s f → Outside t f
Outside-Later {f} l u (ne, g, o) = (ne, l.given f g, u.outside o)

Read-Later :
    {s t : System} {a : Ptr} (n : Node) → Later s t → a ∈ s.linked → Read s a n → Read t a n
Read-Later {s} {a} n l m r out ne =
    let was = r (l.handed a out) ne in l.links a m out (λ e. ne (sym was ∙ e)) ∙ was

WasHead-Later : {s t : System} {a : Ptr} → Later s t → a ∈ s.linked → WasHead s a → WasHead t a
WasHead-Later {a} l m w out = l.was_head a m (w (l.handed a out)) out

Apart-Later :
    {s t : System} {h : Ptr} (a : Ptr)
    → Later s t
    → h ∈ s.linked
    → WasHead s h
    → Apart s h a
    → Apart t h a
Apart-Later {h} a l m w ap_ here ne =
    let was = l.still_head h m w here in l.tail_apart h here was (ap_ was ne)

pub Local-Later :
    {s t : System} (p : Pc)
    → Later s t
    → (brings p ≢ null → Untouched s t (brings p))
    → Local s p
    → Local t p
Local-Later idle l u s = tt
Local-Later (putting f) l u s = Outside-Later l (u s.0) s
Local-Later (put_loop f) l u (o, z) = (Outside-Later l (u o.0) o, (u o.0).link ∙ z)
Local-Later (put_next f t) l u (o, z, m) =
    (Outside-Later l (u o.0) o, (u o.0).link ∙ z, l.linked t.frag m)
Local-Later (put_test f t n) l u (o, z, m, r) =
    (Outside-Later l (u o.0) o, (u o.0).link ∙ z, l.linked t.frag m, Read-Later n l m r)
Local-Later (put_link f t n) l u (o, z, m, r) =
    (Outside-Later l (u o.0) o, (u o.0).link ∙ z, l.linked t.frag m, r)
Local-Later (put_help f t n) l u (o, z, m, r, ne) =
    (Outside-Later l (u o.0) o, (u o.0).link ∙ z, l.linked t.frag m, Read-Later n l m r, ne)
Local-Later (put_move f t) l u (ne, fm, m, r) = (
  ne,
  l.linked f fm,
  l.linked t.frag m,
  λ out. let was = r (l.handed t.frag out) in l.links t.frag m out (λ e. ne (sym was ∙ e)) ∙ was,
)
Local-Later (put_count f) l u m = l.linked f m
Local-Later pick_loop l u s = tt
Local-Later (pick_tail h) l u (m, w) = (l.linked h.frag m, WasHead-Later l m w)
Local-Later (pick_next h t) l u (m, w, a) =
    (l.linked h.frag m, WasHead-Later l m w, Apart-Later t.frag l m w a)
Local-Later (pick_test h t n) l u (m, w, a, r, e) = (
  l.linked h.frag m,
  WasHead-Later l m w,
  Apart-Later t.frag l m w a,
  Read-Later n l m r,
  λ here. e (l.still_head h.frag m w here),
)
Local-Later (pick_help h t n) l u (m, e, ne, r) = (l.linked h.frag m, e, ne, Read-Later n l m r)
Local-Later (pick_unlink h t n) l u (m, w, ne, a, r, e) = (
  l.linked h.frag m,
  WasHead-Later l m w,
  ne,
  Apart-Later t.frag l m w a,
  Read-Later n l m r,
  λ here. e (l.still_head h.frag m w here),
)
Local-Later (pick_count f) l u s = tt
