-- ===== src/LockFree/Values.antt =====
-- Values of nodes are read and written under `readers`, whatever compare-exchanges fail spuriously.
use coop_tasks.Base.{
  ℕ, ◌+◌, ◌<◌, ◌≤◌, ◌≡◌, ◌≢◌, refl, ap, ◌∙◌, true, false, none, some, List, ◌++◌, arith, ◌==◌,
  length, length-drop, length-append, take-drop, take, drop, take-append, drop-append,
  length-take-drop, inc32, inl, inr, Bool-cases,
}
use coop_tasks.Heap.{
  Ptr, node, null, Heap, Cell, World, ok, write, head_or, Turn, Cmd, again, leave, repeat,
}
use coop_tasks.Heap.Access.{
  Holds, load-ok, store-ok, memcpy-ok, answered, agree-lost, agree-won, length-tail_of,
  length-tail_of-lt, write_other,
}
use coop_tasks.Heap.Returns
use coop_tasks.Heap.Returns.{Returns, returns, Round, repeat_rule}
use coop_tasks.Msq.{OnlyAnswers}
use coop_tasks.Queue.{Bytes, LongEnough, Received}
use coop_tasks.LockFree.Defs.{copy_val}
use coop_tasks.LockFree.Ops.{uint32_max, reading_once, writing_once, read_val, write_val}

-- A cell with a value copied in, and the heap with it.
abbrev pub with_val : ℕ → Bytes → Cell → Cell
with_val n none c = c
with_val n (some val) c = record c {
  bytes = take 16 c.bytes ++ (take n val ++ drop n (drop 16 c.bytes));
}

abbrev pub copied : Heap → Ptr → Cell → ℕ → Bytes → Heap
copied h p c n none = h
copied h p c n (some val) = write h p (some (with_val n (some val) c))

pub copied_here :
    (h : Heap) (p : Ptr) (c : Cell) (n : ℕ) (val : Bytes)
    → Holds h p c
    → Holds (copied h p c n val) p (with_val n val c)
copied_here h p c n none at = at
copied_here h p c n (some val) at = record { ne_null = at.ne_null; cell = ground arith }

pub copied_other :
    (h : Heap) (p : Ptr) (c : Cell) (n : ℕ) (val : Bytes) (a : Ptr)
    → a ≢ p
    → copied h p c n val a ≡ h a
copied_other h p c n none a ne = refl
copied_other h p c n (some val) a ne = write_other h p _ a ne

pub copy_val-ok :
    (n : ℕ) (val : Bytes) (w : World) {p : Ptr} {c : Cell}
    → Holds w.heap p c
    → n + 16 ≤ length c.bytes
    → LongEnough n val
    → copy_val n p val w ≡ ok tt (record w { heap = copied w.heap p c n val })
unfolding copy_val
copy_val-ok n none w at room long = refl
copy_val-ok n (some val) w {c} at room long = rw (
  load-ok w at,
  memcpy-ok n (drop 16 c.bytes) val w (ground (arith, length-drop 16 c.bytes)) long,
  store-ok w at _,
)

length-take-drop16 :
    (bytes tail_ : List ℕ)
    → 16 ≤ length bytes
    → length tail_ ≡ length (drop 16 bytes)
    → length (take 16 bytes ++ tail_) ≡ length bytes
length-take-drop16 bytes tail_ room same = omega (
  arith,
  length-append (take 16 bytes) tail_,
  length-append (take 16 bytes) (drop 16 bytes),
  ap length (take-drop 16 bytes),
  same,
)

-- The value that was copied in, and the size of the cell with it.
pub val-with_val :
    (n : ℕ) (val : List ℕ) (c : Cell)
    → n + 16 ≤ length c.bytes
    → n ≤ length val
    → take n (drop 16 ((with_val n (some val) c).bytes)) ≡ take n val
val-with_val n val c room long =
    rw (drop-append 16 c.bytes (take n val ++ drop n (drop 16 c.bytes)) (omega arith))
      (take-append n val (drop n (drop 16 c.bytes)) long)

pub length-with_val :
    (n : ℕ) (val : Bytes) (c : Cell)
    → n + 16 ≤ length c.bytes
    → LongEnough n val
    → length ((with_val n val c).bytes) ≡ length c.bytes
length-with_val n none c room long = refl
length-with_val n (some val) c room long =
    let enough : n ≤ length (drop 16 c.bytes) = ground (arith, length-drop 16 c.bytes) in
    length-take-drop16 c.bytes _ (omega arith)
      (length-take-drop n val (drop 16 c.bytes) long enough)

-- A loop that tries a compare-exchange until it succeeds, and leaves with `m`.
abbrev Taken : World → ℕ → ℕ × Unit {0} → World → Type 0
Taken w m (taken, _) v = (taken ≡ m) × OnlyAnswers w v

pub OnlyAnswers-answered : {w v : World} → OnlyAnswers w v → OnlyAnswers w (answered v)
OnlyAnswers-answered {v} same = record {
  heap = same.heap;
  blocks = same.blocks;
  errno = same.errno;
  fewer = omega (arith, same.fewer, length-tail_of v.spurious);
}

pub OnlyAnswers-refl : {w : World} → OnlyAnswers w w
OnlyAnswers-refl = record { heap = refl; blocks = refl; errno = refl; fewer = omega arith }

module _ (body : Unit {0} → Cmd (Turn ℕ × Unit {0})) (m : ℕ)
    (lost : (v : World) → head_or v.spurious ≡ true → body tt v ≡ ok (again, tt) (answered v))
    (won : (v : World)
      → head_or v.spurious ≡ false
      → body tt v ≡ ok (leave m, tt) (answered v)) where
  taking_lem :
      (w : World) (fuel : ℕ)
      → length w.spurious < fuel
      → Returns (Taken w m) (repeat body fuel tt w)
  taking_lem w fuel lt =
      repeat_rule (λ u v. OnlyAnswers w v) (λ u v. length v.spurious) (Taken w m) body
        (λ u v same. elim (Bool-cases (head_or v.spurious)) [
          | inl failed ↦ rw (lost v failed) (
              returns
                (OnlyAnswers-answered same, omega (arith, length-tail_of-lt v.spurious failed)))
          | inr free ↦ rw (won v free) (returns (refl, OnlyAnswers-answered same))
        ])
        fuel tt w lt OnlyAnswers-refl

reading_lem :
    (w : World) (readers fuel : ℕ)
    → readers < uint32_max
    → length w.spurious < fuel
    → Returns (Taken w (inc32 readers)) (repeat (reading_once readers) fuel tt w)
unfolding reading_once
reading_lem w readers fuel few lt =
    let below : (readers == uint32_max) ≡ false = ground arith in
    let n = node readers null in
    taking_lem (reading_once readers) (inc32 readers) (λ v h. rw (below, agree-lost v n n h))
      (λ v h. rw (below, agree-won v n h)) w fuel lt

writing_lem :
    (w : World) (fuel : ℕ)
    → length w.spurious < fuel
    → Returns (Taken w uint32_max) (repeat (writing_once 0) fuel tt w)
unfolding writing_once
writing_lem w fuel lt =
    let n = node 0 null in
    taking_lem (writing_once 0) uint32_max (λ v h. rw (agree-lost v n n h))
      (λ v h. rw (agree-won v n h)) w fuel lt

-- What a read leaves: the value in the buffer, and `readers` as it was.
abbrev pub ReadPost : World → ℕ → ℕ → Bytes → List ℕ → Bytes × ℕ → World → Type 0
ReadPost w n readers val item (val', readers') v =
    Received n val item val' × (readers' ≡ readers) × OnlyAnswers w v

pub read_val-Read :
    (fuel readers n : ℕ) (val : Bytes) (w : World) {p : Ptr} {c : Cell}
    → Holds w.heap p c
    → n + 16 ≤ length c.bytes
    → LongEnough n val
    → readers < uint32_max
    → length w.spurious < fuel
    → Returns
        (ReadPost w n readers val (take n (drop 16 c.bytes)))
        (read_val fuel readers n p val w)
unfolding read_val
read_val-Read fuel readers n none w at room long few lt = returns (refl, refl, OnlyAnswers-refl)
read_val-Read fuel readers n (some val) w {p} {c} at room long few lt =
    let enough : n ≤ length (drop 16 c.bytes) = ground (arith, length-drop 16 c.bytes) in
    Returns.bind (reading_lem w readers fuel few lt) λ (taken, _) v (is, same).
      let at' : Holds v.heap p c = record {
        ne_null = at.ne_null;
        cell = ap (λ h. h p) same.heap ∙ at.cell;
      } in
      rw (load-ok v at', memcpy-ok n val (drop 16 c.bytes) v long enough)
        (returns (
          (
            _,
            refl,
            take-append n (drop 16 c.bytes) _ enough,
            drop-append n (drop 16 c.bytes) _ enough,
          ),
          omega (arith, is, few),
          same,
        ))

-- What a write leaves.
abbrev pub WritePost : World → Ptr → Cell → ℕ → Bytes → ℕ → World → Type 0
WritePost w p c n val readers v =
    (readers ≡ 0)
    × (v.heap ≡ copied w.heap p c n val)
    × (v.blocks ≡ w.blocks)
    × (v.errno ≡ w.errno)
    × (length v.spurious ≤ length w.spurious)

pub write_val-Written :
    (fuel n : ℕ) (val : Bytes) (w : World) {p : Ptr} {c : Cell}
    → Holds w.heap p c
    → n + 16 ≤ length c.bytes
    → LongEnough n val
    → length w.spurious < fuel
    → Returns (WritePost w p c n val) (write_val fuel 0 n p val w)
unfolding write_val
write_val-Written fuel n none w at room long lt = returns (refl, refl, refl, refl, omega arith)
write_val-Written fuel n (some val) w {p} {c} at room long lt =
    Returns.bind (writing_lem w fuel lt) λ (taken, _) v (is, same).
      let at' : Holds v.heap p c = record {
        ne_null = at.ne_null;
        cell = ap (λ h. h p) same.heap ∙ at.cell;
      } in
      rw (copy_val-ok n (some val) v at' room long) (
        returns (
          refl,
          ap (λ h. write h p (some (with_val n (some val) c))) same.heap,
          same.blocks,
          same.errno,
          same.fewer,
        ))
