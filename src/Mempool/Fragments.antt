-- ===== src/Mempool/Fragments.antt =====
-- The fragments of a block: their addresses, and what `calloc` and `free` make of them.
use coop_tasks.Base.{
  ℕ, zero, suc, ◌+◌, ◌-◌, ◌*◌, ◌%◌, ◌<◌, ◌≤◌, ◌≡◌, refl, Option, List, [], ◌∷◌, arith, ◌==◌,
  size_max, length, has, ◌∈◌, ◌∉◌, Distinct, inl, inr, Bool-cases,
}
use coop_tasks.Heap.{Ptr, Cell, Heap}
use coop_tasks.Mempool.Defs.{fragment_at, fill, internal_mempool_aligned_data_bytes}

-- The fragments with the indices from `i` up to `i + k`.
abbrev pub fragments : (k i : ℕ) → Ptr → ℕ → List Ptr
fragments zero i base size = []
fragments (suc k) i base size = fragment_at base size i ∷ fragments k (i + 1) base size

-- The rounded size: a multiple of 16 that holds a link, and the least that holds the data.
pub record IsAligned (data_bytes size : ℕ) : Type 0 where
  pub multiple : size % 16 ≡ 0
  pub link : 16 ≤ size
  pub room : data_bytes ≤ size
  pub tight : (16 < size) → size < data_bytes + 16

-- For a data size that leaves room to round up, the size of a fragment is a multiple of 16, at
-- least that of a link and of the data, and less than 16 above the data's unless it is 16.
pub internal_mempool_aligned_data_bytes-IsAligned :
    (data_bytes : ℕ)
    → data_bytes ≤ size_max - 16
    → IsAligned data_bytes (internal_mempool_aligned_data_bytes data_bytes)
unfolding internal_mempool_aligned_data_bytes
internal_mempool_aligned_data_bytes-IsAligned data_bytes h = record {
  multiple = ground arith;
  link = ground arith;
  room = ground arith;
  tight = ground arith;
}

pub length-fragments : (k i : ℕ) (base : Ptr) (size : ℕ) → length (fragments k i base size) ≡ k
length-fragments zero i base size = refl
length-fragments (suc k) i base size = omega (arith, length-fragments k (i + 1) base size)

pub fragment_at-eq :
    (base : Ptr) (size i : ℕ)
    → base + size * i < size_max
    → fragment_at base size i ≡ base + size * i
fragment_at-eq base size i h = omega arith

module _ (base : Ptr) (size : ℕ) (pos : 0 < size) where
  -- A block that ends within the address space.
  abbrev Fits : ℕ → Type 0
  Fits n = base + size * n ≤ size_max

  pub fragments_above :
      (k i : ℕ) (a : Ptr) → Fits (i + k) → a ∈ fragments k i base size → base + size * i ≤ a
  fragments_above zero i a fits m = cc
  fragments_above (suc k) i a fits m = elim (Bool-cases (a == fragment_at base size i)) [
    | inl here ↦
        let low : base + size * i < size_max = omega arith in
        let at : a ≡ fragment_at base size i = ground arith in
        omega (arith, fragment_at-eq base size i low)
    | inr later ↦
        let above = fragments_above k (i + 1) a (omega arith) (ground arith) in omega arith
  ]

  pub Distinct-fragments : (k i : ℕ) → Fits (i + k) → Distinct (fragments k i base size)
  Distinct-fragments zero i fits = tt
  Distinct-fragments (suc k) i fits = (
    elim (Bool-cases (has (fragment_at base size i) (fragments k (i + 1) base size))) [
      | inl twice ↦
          let low : base + size * i < size_max = omega arith in
          let above = fragments_above k (i + 1) (fragment_at base size i) (omega arith) twice in
          absurd (omega (arith, fragment_at-eq base size i low))
      | inr once ↦ once
    ],
    Distinct-fragments k (i + 1) (omega arith),
  )

pub fill_inside :
    (k i : ℕ) (base : Ptr) (size : ℕ) (c : Option Cell) (h : Heap) (a : Ptr)
    → a ∈ fragments k i base size
    → fill k i base size c h a ≡ c
unfolding fill
fill_inside zero i base size c h a m = cc
fill_inside (suc k) i base size c h a m = ground (arith, fill_inside k (i + 1) base size c h a)

pub fill_outside :
    (k i : ℕ) (base : Ptr) (size : ℕ) (c : Option Cell) (h : Heap) (a : Ptr)
    → a ∉ fragments k i base size
    → fill k i base size c h a ≡ h a
unfolding fill
fill_outside zero i base size c h a m = refl
fill_outside (suc k) i base size c h a m = ground (arith, fill_outside k (i + 1) base size c h a)
