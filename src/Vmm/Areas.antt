-- ===== src/Vmm/Areas.antt =====
-- The list of areas of an address space as a sequence, and what kern/mm/vmm.c keeps of it.
use os_lab.Base.{
  ℕ, ◌≤◌, ◌<◌, ◌≡◌, Bool, true, ◌&&◌, ◌||◌, Option, none, some, List, [], ◌∷◌, leb, has, length,
  arith, if◌then◌else◌,
}
use os_lab.Links.Chain.{Ring}
use os_lab.Vmm.{Vma, Space, in_vma}

module _ (vs : ℕ → Vma) where
  -- The areas lie at or above `lo`, none of them empty, in rising order and apart.
  abbrev pub Areas : ℕ → List ℕ → Type 0
  Areas lo [] = Unit
  Areas lo (x ∷ xs) =
      (lo ≤ (vs x).vm_start) × ((vs x).vm_start < (vs x).vm_end) × Areas (vs x).vm_end xs

  -- The area of the sequence in which an address lies.
  unfoldable pub owner : ℕ → List ℕ → Option ℕ
  owner addr [] = none
  owner addr (x ∷ xs) = if in_vma vs addr x then some x else owner addr xs

  -- Area `v` has no address in common with `x`.
  abbrev pub clear_of : ℕ → ℕ → Bool
  clear_of v x = leb (vs v).vm_end (vs x).vm_start || leb (vs x).vm_end (vs v).vm_start

  unfoldable pub clear_of_all : ℕ → List ℕ → Bool
  clear_of_all v [] = true
  clear_of_all v (x ∷ xs) = clear_of v x && clear_of_all v xs

  pub Areas-lower : (lo x : ℕ) (xs : List ℕ) → Areas lo xs → has x xs ≡ true → lo ≤ (vs x).vm_start
  Areas-lower lo x [] a h = absurd (ground arith)
  Areas-lower lo x (y ∷ ys) a h = ground (arith, Areas-lower (vs y).vm_end x ys a.2)

  pub Areas-weaken : (lo lo' : ℕ) (xs : List ℕ) → lo' ≤ lo → Areas lo xs → Areas lo' xs
  Areas-weaken lo lo' [] h a = tt
  Areas-weaken lo lo' (x ∷ xs) h a = (omega arith, a.1, a.2)

  -- At most one area holds an address.
  pub owner_unique :
      (lo addr v : ℕ) (xs : List ℕ)
      → Areas lo xs
      → has v xs ≡ true
      → in_vma vs addr v ≡ true
      → owner addr xs ≡ some v
  unfolding owner
  owner_unique lo addr v [] a h i = absurd (ground arith)
  owner_unique lo addr v (x ∷ xs) a h i =
      ground (arith, Areas-lower (vs x).vm_end v xs a.2, owner_unique (vs x).vm_end addr v xs a.2)

  pub owner-has : (addr v : ℕ) (xs : List ℕ) → owner addr xs ≡ some v → has v xs ≡ true
  unfolding owner
  owner-has addr v [] e = absurd (ground arith)
  owner-has addr v (x ∷ xs) e = ground (arith, owner-has addr v xs)

  pub owner-in_vma : (addr v : ℕ) (xs : List ℕ) → owner addr xs ≡ some v → in_vma vs addr v ≡ true
  unfolding owner
  owner-in_vma addr v [] e = absurd (ground arith)
  owner-in_vma addr v (x ∷ xs) e = ground (arith, owner-in_vma addr v xs)

-- The list and the counter of `mm` agree with the sequence `xs`, and the cached area is one of it.
pub record HasAreas (s : Space) (m : ℕ) (xs : List ℕ) : Type 0 where
  pub ring : Ring s.links m xs
  pub areas : Areas s.vma 0 xs
  pub cached : (v : ℕ) → (s.mm m).mmap_cache ≡ some v → has v xs ≡ true
  pub counted : (s.mm m).map_count ≡ length xs
