-- ===== src/LockFree/Spec.antt =====
-- What a list promises: a finite map, as the items in the order of their keys; and where a key stands
-- among the nodes.
use coop_tasks.Base.{
  ℕ, ◌-◌, ◌<◌, ◌≤◌, ◌≡◌, ◌≢◌, ◌⊎◌, refl, sym, ap, true, false, Option, none, some, List, [], ◌∷◌,
  ◌++◌, arith, ◌==◌, leb, if◌then◌else◌, inl, inr, Bool-cases,
}
use coop_tasks.Heap.{Ptr, Heap}
use coop_tasks.LockFree.Span.{Entry, Span, upto, from, key_end}

abbrev pub Items : Type 0
Items = List (ℕ × List ℕ)

abbrev pub items : List Entry → Items
items [] = []
items (e ∷ es) = (e.key, e.val) ∷ items es

unfoldable pub find : ℕ → Items → Option (List ℕ)
find key [] = none
find key ((k, val) ∷ rest) = if k == key then some val else find key rest

unfoldable pub put : ℕ → List ℕ → Items → Items
put key new [] = (key, new) ∷ []
put key new ((k, val) ∷ rest) =
    if leb k key then (k, val) ∷ put key new rest else (key, new) ∷ (k, val) ∷ rest

unfoldable pub remove : ℕ → Items → Items
remove key [] = []
remove key ((k, val) ∷ rest) = if k == key then rest else (k, val) ∷ remove key rest

unfoldable pub set : ℕ → List ℕ → Items → Items
set key new [] = []
set key new ((k, val) ∷ rest) = if k == key then (key, new) ∷ rest else (k, val) ∷ set key new rest

-- The keys of the entries rise, from above `k` on.
abbrev pub Rising : ℕ → List Entry → Type 0
Rising k [] = Unit {0}
Rising k (e ∷ es) = (k < e.key) × Rising e.key es

pub Span-Rising :
    (h : Heap) (n : ℕ) (a : Ptr) (k : ℕ) (es : List Entry) (t : Ptr)
    → Span h n a k es t
    → Rising k es
Span-Rising h n a k [] t s = tt
Span-Rising h n a k (e ∷ es) t s = (s.1, Span-Rising h n e.at e.key es t s.3)

-- The entry with a key, those before it, and those behind it.
pub record Found (key : ℕ) (es : List Entry) : Type 0 where
  pub before : List Entry
  pub entry : Entry
  pub behind : List Entry
  pub is_key : entry.key ≡ key
  pub split : es ≡ before ++ entry ∷ behind
  pub upto_is : upto key es ≡ before ++ entry ∷ []
  pub from_is : from key es ≡ behind
  pub upto_pred : upto (key - 1) es ≡ before
  pub from_pred : from (key - 1) es ≡ entry ∷ behind
  pub find_is : find key (items es) ≡ some entry.val
  pub remove_is : remove key (items es) ≡ items (before ++ behind)
  pub set_is :
      (new : List ℕ)
      → set key new (items es) ≡ items (before ++ (record entry { val = new }) ∷ behind)

-- The key is that of no entry.
pub record Missing (k key : ℕ) (es : List Entry) : Type 0 where
  pub end_ne : key_end k (upto key es) ≢ key
  pub upto_pred : upto (key - 1) es ≡ upto key es
  pub from_pred : from (key - 1) es ≡ from key es
  pub find_is : find key (items es) ≡ none

-- Entries above a key do not hold it.
find_above : (k key : ℕ) (es : List Entry) → Rising k es → key ≤ k → find key (items es) ≡ none
unfolding find
find_above k key [] r le = refl
find_above k key (e ∷ es) r le = ground (arith, find_above e.key key es)

from_above : (k key : ℕ) (es : List Entry) → Rising k es → key ≤ k → from key es ≡ es
from_above k key [] r le = refl
from_above k key (e ∷ es) r le = ground arith

upto_above : (k key : ℕ) (es : List Entry) → Rising k es → key ≤ k → upto key es ≡ []
upto_above k key [] r le = refl
upto_above k key (e ∷ es) r le = ground arith

Found-cons :
    (key : ℕ) (e : Entry) (es : List Entry) → e.key < key → Found key es → Found key (e ∷ es)
unfolding find remove set
Found-cons key e es lt f =
    let low : leb e.key key ≡ true = ground arith in
    let pred : leb e.key (key - 1) ≡ true = ground arith in
    let ne : (e.key == key) ≡ false = ground arith in
    record {
      before = e ∷ f.before;
      entry = f.entry;
      behind = f.behind;
      is_key = f.is_key;
      split = ap (λ xs. e ∷ xs) f.split;
      upto_is = rw low (ap (λ xs. e ∷ xs) f.upto_is);
      from_is = rw low f.from_is;
      upto_pred = rw pred (ap (λ xs. e ∷ xs) f.upto_pred);
      from_pred = rw pred f.from_pred;
      find_is = rw ne f.find_is;
      remove_is = rw ne (ap (λ xs. (e.key, e.val) ∷ xs) f.remove_is);
      set_is = λ new. rw ne (ap (λ xs. (e.key, e.val) ∷ xs) (f.set_is new));
    }

Found-here :
    (k key : ℕ) (e : Entry) (es : List Entry) → Rising k (e ∷ es) → e.key ≡ key → Found key (e ∷ es)
unfolding find remove set
Found-here k key e es r is =
    let low : leb e.key key ≡ true = ground arith in
    let pred : leb e.key (key - 1) ≡ false = ground arith in
    let eq : (e.key == key) ≡ true = ground arith in
    record {
      before = [];
      entry = e;
      behind = es;
      is_key = is;
      split = refl;
      upto_is = rw low (ap (λ xs. e ∷ xs) (upto_above e.key key es r.1 (omega arith)));
      from_is = rw low (from_above e.key key es r.1 (omega arith));
      upto_pred = rw pred;
      from_pred = rw pred;
      find_is = rw eq;
      remove_is = rw eq;
      set_is = λ new. rw eq (ap (λ (x : ℕ). (x, new) ∷ items es) (sym is));
    }

Missing-cons :
    (k key : ℕ) (e : Entry) (es : List Entry)
    → e.key < key
    → Missing e.key key es
    → Missing k key (e ∷ es)
unfolding find
Missing-cons k key e es lt m =
    let low : leb e.key key ≡ true = ground arith in
    let pred : leb e.key (key - 1) ≡ true = ground arith in
    let ne : (e.key == key) ≡ false = ground arith in
    record {
      end_ne = rw low m.end_ne;
      upto_pred = rw (low, pred) (ap (λ xs. e ∷ xs) m.upto_pred);
      from_pred = rw (low, pred) m.from_pred;
      find_is = rw ne m.find_is;
    }

Missing-here :
    (k key : ℕ) (e : Entry) (es : List Entry)
    → Rising k (e ∷ es)
    → k < key
    → key < e.key
    → Missing k key (e ∷ es)
unfolding find
Missing-here k key e es r lt gt =
    let high : leb e.key key ≡ false = ground arith in
    let pred : leb e.key (key - 1) ≡ false = ground arith in
    let ne : (e.key == key) ≡ false = ground arith in
    record {
      end_ne = rw high (omega arith);
      upto_pred = rw (high, pred);
      from_pred = rw (high, pred);
      find_is = rw ne (find_above e.key key es r.1 (omega arith));
    }

-- A key is found, or missing.
pub place : (k key : ℕ) (es : List Entry) → Rising k es → k < key → Found key es ⊎ Missing k key es
unfolding find
place k key [] r lt =
    inr (record { end_ne = omega arith; upto_pred = refl; from_pred = refl; find_is = refl })
place k key (e ∷ es) r lt = elim (Bool-cases (e.key == key)) [
  | inl here ↦ inl (Found-here k key e es r (ground arith))
  | inr other ↦ elim (Bool-cases (leb e.key key)) [
    | inl low ↦ elim (place e.key key es r.1 (ground arith)) [
      | inl f ↦ inl (Found-cons key e es (ground arith) f)
      | inr m ↦ inr (Missing-cons k key e es (ground arith) m)
    ]
    | inr high ↦ inr (Missing-here k key e es r lt (ground arith))
  ]
]

-- A new entry between the others is what `put` makes.
pub put-upto-from :
    (key : ℕ) (new : Entry) (es : List Entry)
    → new.key ≡ key
    → items (upto key es ++ new ∷ from key es) ≡ put key new.val (items es)
unfolding put
put-upto-from key new [] is = rw is
put-upto-from key new (e ∷ es) is = elim (Bool-cases (leb e.key key)) [
  | inl low ↦ rw (low, put-upto-from key new es is)
  | inr high ↦ rw (high, is)
]

-- The entries behind a key are above it.
pub from-gt :
    (key : ℕ) (es : List Entry) (e : Entry) (r : List Entry) → from key es ≡ e ∷ r → key < e.key
from-gt key [] e r is = ground arith
from-gt key (x ∷ es) e r is = ground (arith, from-gt key es e r)
