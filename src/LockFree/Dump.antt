-- ===== src/LockFree/Dump.antt =====
-- `list_dump` prints the keys of the list.
use coop_tasks.Base.{
  ℕ, zero, suc, ◌<◌, ◌≡◌, ◌≤◌, refl, ap, ◌∙◌, true, false, List, [], ◌∷◌, ◌++◌, arith, append_assoc,
  ltb, if◌then◌else◌, ◌+◌, ◌-◌, ◌^◌, ◌==◌, length,
}
use coop_tasks.Heap.{Ptr, Heap, World, ok, repeat}
use coop_tasks.LockFree.Defs.{LockFreeList}
use coop_tasks.LockFree.Ops.{key_max, key_min, as_unsigned, title, key_text, dump_once, list_dump}
use coop_tasks.LockFree.Span.{Entry, IsNode, IsNode-ne, Span, Span-IsNode, first, key_end}
use coop_tasks.LockFree.Search.{load_node}
use coop_tasks.LockFree.Spec.{Items, items}
use coop_tasks.LockFree.Inv.{IsList}

-- The line of the keys of a map, in their order, where `show` writes an unsigned number. A key with
-- 2 ^ 63 added that is below 2 ^ 63 is negative: 2 ^ 64 is added to it as a signed number.
abbrev pub line_of : (ℕ → List ℕ) → Items → List ℕ
line_of show [] = []
line_of show ((key, val) ∷ rest) =
    let number = if ltb key (2 ^ 63) then key + 2 ^ 63 else key - 2 ^ 63 in
    32 ∷ 91 ∷ (show number ++ (93 ∷ line_of show rest))

-- The bytes of `Lock-free List:` and a newline.
abbrev pub heading : List ℕ
heading =
    76 ∷ 111 ∷ 99 ∷ 107 ∷ 45 ∷ 102 ∷ 114 ∷ 101 ∷ 101 ∷ 32 ∷ 76 ∷ 105 ∷ 115 ∷ 116 ∷ 58 ∷ 10 ∷ []

line_of-cons :
    (show : ℕ → List ℕ) (key : ℕ) (val : List ℕ) (rest : Items)
    → key < 2 ^ 64
    → key_text show key ++ line_of show rest ≡ line_of show ((key, val) ∷ rest)
line_of-cons show key val rest small =
    let same : as_unsigned key ≡ (if ltb key (2 ^ 63) then key + 2 ^ 63 else key - 2 ^ 63) =
      ground arith in
    ap (λ n. 32 ∷ 91 ∷ ((show n ++ 93 ∷ []) ++ line_of show rest)) same
    ∙ ap (λ l. 32 ∷ 91 ∷ l) (append_assoc (show _) (93 ∷ []) (line_of show rest))

append_nil : (xs : List ℕ) → xs ≡ xs ++ []
append_nil [] = refl
append_nil (y ∷ xs) = ap (λ l. y ∷ l) (append_nil xs)

key_end-last :
    (h : Heap) (n : ℕ) (a : Ptr) (k : ℕ) (es : List Entry) (t : Ptr)
    → Span h n a k es t
    → k ≤ key_end k es
key_end-last h n a k [] t s = omega arith
key_end-last h n a k (e ∷ es) t s = omega (arith, s.1, key_end-last h n e.at e.key es t s.3)

dump_walk :
    (show : ℕ → List ℕ) (w : World) (n : ℕ) (a : Ptr) (k : ℕ) (es : List Entry) (t : Ptr) {x : Ptr}
    (fuel : ℕ) (text : List ℕ)
    → Span w.heap n a k es t
    → IsNode w.heap t key_max x
    → key_end k es < key_max
    → length es < fuel
    → repeat (dump_once show t) fuel (first es t, text) w
      ≡ ok (tt, (t, text ++ line_of show (items es))) w
unfolding repeat dump_once
dump_walk show w n a k es t zero text s at below lt = elim lt [ ]
dump_walk show w n a k [] t (suc fuel) text s at below lt =
    let here : (t == t) ≡ true = ground arith in
    rw here (ap (λ l. ok (tt, (t, l)) w) (append_nil text))
dump_walk show w n a k (e ∷ es) t (suc fuel) text s at below lt =
    let is = Span-IsNode w.heap n e.at e.key es t s.3 in
    let under : e.key < key_max = omega (arith, below, key_end-last w.heap n e.at e.key es t s.3) in
    let more : (e.at == t) ≡ false = ground (arith, IsNode-ne is at (omega (arith, under))) in
    rw (more, load_node w is, is.is_next, is.is_key)
      (dump_walk show w n e.at e.key es t fuel (text ++ key_text show e.key) s.3 at below
          (omega arith)
        ∙ ap (λ l. ok (tt, (t, l)) w)
            (append_assoc text (key_text show e.key) (line_of show (items es))
              ∙ ap (λ l. text ++ l)
                  (line_of-cons show e.key e.val (items es) (omega (arith, under)))))

-- On a list, with enough fuel for its entries, `list_dump` ends without a fault and changes nothing.
-- It prints the title, and on the next line the keys in the order of the map, each
-- between brackets behind a blank: a key that is not negative as it is, and a negative one with
-- 2 ^ 64 added, as a large number.
pub list_dump-keys :
    {w : World} {self : LockFreeList} {es : List Entry} {p : Ptr} {free out : List Ptr}
    (show : ℕ → List ℕ) (fuel : ℕ)
    → IsList w self es p free out
    → length es < fuel
    → list_dump show fuel self w ≡ ok (heading ++ (line_of show (items es) ++ 10 ∷ [])) w
unfolding list_dump
list_dump-keys {w} {self} {es} show fuel is lt =
    let at = Span-IsNode w.heap self.val_bytes self.head key_min es self.tail is.span in
    rw (
      load_node w at,
      at.is_next,
      dump_walk show w self.val_bytes self.head key_min es self.tail fuel title is.span is.last
          is.below lt,
    )
