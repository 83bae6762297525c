-- ===== src/Links/Chain.antt =====
-- What it is for the entries of libs/list.h to form a list: each `next` is undone by a `prev`.
use os_lab.Base.{ℕ, ◌≡◌, ◌≢◌, true, false, List, [], ◌∷◌, ◌++◌, arith, has, Distinct}
use os_lab.Links.{Links}

abbrev pub Edge : Links → ℕ → ℕ → Type 0
Edge h a b = (h.next a ≡ b) × (h.prev b ≡ a)

-- From `a` the links lead through `xs` to `b`, and back.
abbrev pub Chain : Links → ℕ → List ℕ → ℕ → Type 0
Chain h a [] b = Edge h a b
Chain h a (x ∷ xs) b = Edge h a x × Chain h x xs b

-- The list with head `a` holds the entries `xs` in this order.
pub record Ring (h : Links) (a : ℕ) (xs : List ℕ) : Type 0 where
  pub chain : Chain h a xs a
  pub distinct : Distinct (a ∷ xs)

-- A chain depends on the `next` of its sources and the `prev` of its targets only.
pub Chain-frame :
    {h g : Links} (a b : ℕ) (xs : List ℕ)
    → Chain h a xs b
    → ((u : ℕ) → has u (a ∷ xs) ≡ true → g.next u ≡ h.next u)
    → ((v : ℕ) → has v (xs ++ b ∷ []) ≡ true → g.prev v ≡ h.prev v)
    → Chain g a xs b
Chain-frame a b [] c n p = ground (arith, n a, p b)
Chain-frame a b (x ∷ xs) c n p = (
  ground (arith, n a, p x),
  Chain-frame x b xs c.1 (λ u i. n u (ground arith)) (λ v i. p v (ground arith)),
)

abbrev pub first : List ℕ → ℕ → ℕ
first [] b = b
first (y ∷ _) b = y

abbrev pub last : ℕ → List ℕ → ℕ
last a [] = a
last a (x ∷ xs) = last x xs

pub Chain-next : (h : Links) (a b : ℕ) (xs : List ℕ) → Chain h a xs b → h.next a ≡ first xs b
Chain-next h a b [] c = c.0
Chain-next h a b (x ∷ xs) c = c.0.0

pub Chain-prev : (h : Links) (a b : ℕ) (xs : List ℕ) → Chain h a xs b → h.prev b ≡ last a xs
Chain-prev h a b [] c = c.1
Chain-prev h a b (x ∷ xs) c = Chain-prev h x b xs c.1

pub has-last : (a : ℕ) (xs : List ℕ) → has (last a xs) (a ∷ xs) ≡ true
has-last a [] = ground arith
has-last a (x ∷ xs) = ground (arith, has-last x xs)

pub ne_of_has : (u e : ℕ) (xs : List ℕ) → has u xs ≡ true → has e xs ≡ false → u ≢ e
ne_of_has u e xs p q r = ground arith

pub has-first : (ys : List ℕ) (b : ℕ) → has (first ys b) (ys ++ b ∷ []) ≡ true
has-first [] b = ground arith
has-first (y ∷ ys) b = ground arith
