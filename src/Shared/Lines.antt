-- ===== src/Shared/Lines.antt =====
-- Lines of fragments, and lists in which no number stands twice.
use coop_tasks.Base.{
  ℕ, ◌≡◌, ◌≢◌, ◌∈◌, ◌∉◌, refl, sym, ap, ◌∙◌, List, [], ◌∷◌, ◌++◌, ◌==◌, arith, Distinct, has-append,
  inl, inr, Bool-cases,
}
use coop_tasks.Heap.{Ptr, null, Node, node}
use coop_tasks.Shared.Machine.{write}
use coop_tasks.Shared.Inv.{Line}

pub Distinct-behind : (xs ys : List ℕ) → Distinct (xs ++ ys) → Distinct ys
Distinct-behind [] ys d = d
Distinct-behind (x ∷ xs) ys d = Distinct-behind xs ys d.1

pub Distinct-apart : (a : ℕ) (xs ys : List ℕ) → Distinct (xs ++ ys) → a ∈ xs → a ∉ ys
Distinct-apart a [] ys d m = ground arith
Distinct-apart a (x ∷ xs) ys d m = ground (arith, has-append x xs ys, Distinct-apart a xs ys d.1)

pub Distinct-snoc : (a : ℕ) (xs : List ℕ) → Distinct xs → a ∉ xs → Distinct (xs ++ a ∷ [])
Distinct-snoc a [] d out = (refl, tt)
Distinct-snoc a (x ∷ xs) d out =
    (rw (has-append x xs (a ∷ [])) (ground arith), Distinct-snoc a xs d.1 (ground arith))

pub Line-frame :
    (next next' : Ptr → Node) (a : Ptr) (r : List Ptr)
    → ((b : Ptr) → b ∈ a ∷ r → (next' b).frag ≡ (next b).frag)
    → Line next a r
    → Line next' a r
Line-frame next next' a [] same l = same a (ground arith) ∙ l
Line-frame next next' a (b ∷ r) same l =
    (same a (ground arith) ∙ l.0, Line-frame next next' b r (λ c m. same c (ground arith)) l.1)

-- The link of a fragment, if it is not NULL, leads on in the line.
pub Line-next :
    (next : Ptr → Node) (a : Ptr) (r : List Ptr) (t : Ptr)
    → Line next a r
    → t ∈ a ∷ r
    → (next t).frag ≢ null
    → (next t).frag ∈ r
Line-next next a [] t l m ne =
    let at : t ≡ a = ground arith in absurd (ne (ap (λ b. (next b).frag) at ∙ l))
Line-next next a (b ∷ r) t l m ne = elim (Bool-cases (t == a)) [
  | inl here ↦
      let at : t ≡ a = ground arith in
      let is : (next t).frag ≡ b = ap (λ c. (next c).frag) at ∙ l.0 in ground arith
  | inr behind ↦ ground (arith, Line-next next b r t l.1)
]

-- A fragment with no link is the last one: a fragment can be linked to it.
pub Line-link :
    (next : Ptr → Node) (a : Ptr) (r : List Ptr) (t f : Ptr) (c : ℕ)
    → Line next a r
    → t ∈ a ∷ r
    → (next t).frag ≡ null
    → null ∉ r
    → Distinct (a ∷ r)
    → f ∉ a ∷ r
    → (next f).frag ≡ null
    → Line (write next t (node c f)) a (r ++ f ∷ [])
Line-link next a [] t f c l m z nn d out zf = ground arith
Line-link next a (b ∷ r) t f c l m z nn d out zf = elim (Bool-cases (t == a)) [
  | inl here ↦
      let at : t ≡ a = ground arith in
      let is : b ≡ null = sym l.0 ∙ sym (ap (λ x. (next x).frag) at) ∙ z in ground arith
  | inr behind ↦ (
    ground arith,
    Line-link next b r t f c l.1 (ground arith) z (ground arith) d.1 (ground arith) zf,
  )
]
