-- ===== src/Base/Lists.antt =====
-- Lists measured by native numbers, and Boolean membership.
use Prim.Native.Nat.{ℕ, suc, ◌+◌}
use mathlib.Core.Path.{◌≡◌, refl, ap}
use mathlib.Core.Logic.{inl, inr}
use mathlib.Core.Bool.{Bool, true, false, ◌||◌, or_assoc}
use mathlib.Core.List.{List, [], ◌∷◌, ◌++◌, map}
use native.Mathlib.Omega.{arith}
use os_lab.Base.Tests.{◌==◌, Bool-cases}

module _ {ℓ} {A : Type ℓ} where
  abbrev pub length : List A → ℕ
  length [] = 0
  length (_ ∷ xs) = suc (length xs)

  pub length-append : (xs ys : List A) → length (xs ++ ys) ≡ length xs + length ys
  length-append [] ys = omega arith
  length-append (_ ∷ xs) ys = omega (arith, length-append xs ys)

abbrev pub has : ℕ → List ℕ → Bool
has a [] = false
has a (x ∷ xs) = (a == x) || has a xs

pub has-append : (a : ℕ) (xs ys : List ℕ) → has a (xs ++ ys) ≡ (has a xs || has a ys)
has-append a [] ys = refl
has-append a (x ∷ xs) ys = rw (has-append a xs ys, or_assoc)

-- No number stands twice in the list.
abbrev pub Distinct : List ℕ → Type 0
Distinct [] = Unit
Distinct (x ∷ xs) = (has x xs ≡ false) × Distinct xs

pub Distinct-snoc : (a : ℕ) (xs : List ℕ) → Distinct (a ∷ xs) → Distinct (xs ++ a ∷ [])
Distinct-snoc a [] d = ground arith
Distinct-snoc a (x ∷ xs) d =
    (ground (arith, has-append x xs (a ∷ [])), Distinct-snoc a xs (ground arith, d.1.1))

pub Distinct-insert :
    (e : ℕ) (xs ys : List ℕ)
    → Distinct (xs ++ ys)
    → has e (xs ++ ys) ≡ false
    → Distinct (xs ++ e ∷ ys)
Distinct-insert e [] ys d o = (o, d)
Distinct-insert e (x ∷ xs) ys d o = (
  ground (arith, has-append x xs ys, has-append x xs (e ∷ ys)),
  Distinct-insert e xs ys d.1 (ground arith),
)

pub Distinct-remove :
    (e : ℕ) (xs ys : List ℕ)
    → Distinct (xs ++ e ∷ ys)
    → Distinct (xs ++ ys) × (has e (xs ++ ys) ≡ false)
Distinct-remove e [] ys d = (d.1, d.0)
Distinct-remove e (x ∷ xs) ys d =
    let rest = Distinct-remove e xs ys d.1 in
    (
      (ground (arith, has-append x xs ys, has-append x xs (e ∷ ys)), rest.0),
      ground (arith, rest.1, has-append x xs (e ∷ ys)),
    )

pub has-map-suc : (u : ℕ) (xs : List ℕ) → has (suc u) (map suc xs) ≡ has u xs
has-map-suc u [] = refl
has-map-suc u (x ∷ xs) = ground (arith, has-map-suc u xs)

pub has-map_zero : (xs : List ℕ) → has 0 (map suc xs) ≡ false
has-map_zero [] = refl
has-map_zero (x ∷ xs) = ground (arith, has-map_zero xs)

-- A member of a list splits it.
pub has-split :
    (a : ℕ) (xs : List ℕ)
    → has a xs ≡ true
    → (front : List ℕ) × (back : List ℕ) × (xs ≡ front ++ a ∷ back)
has-split a [] h = absurd (cc)
has-split a (x ∷ xs) h = elim (Bool-cases (a == x)) [
  | inl e ↦ let at : x ≡ a = ground arith in ([], xs, ap (λ (k : ℕ). k ∷ xs) at)
  | inr e ↦
      let (front, back, q) = has-split a xs (ground (arith, e, h)) in
      (x ∷ front, back, ap (λ (l : List ℕ). x ∷ l) q)
]
