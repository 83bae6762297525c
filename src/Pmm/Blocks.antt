-- ===== src/Pmm/Blocks.antt =====
-- The free list of the allocator as a sequence of blocks, each given by its first page.
use os_lab.Base.{
  ℕ, ◌+◌, ◌≤◌, ◌<◌, ◌^◌, ◌≡◌, refl, Bool, true, false, ◌&&◌, ◌||◌, List, [], ◌∷◌, ◌++◌, map, Option,
  none, some, leb, ltb, has, if◌then◌else◌, arith,
}
use os_lab.Links.Chain.{Ring}
use os_lab.Pmm.{Page, Pmm, page_property, free_list, page_link}

-- Page `q` is one of the `n` pages from `base` on.
abbrev pub in_range : ℕ → ℕ → ℕ → Bool
in_range base n q = leb base q && ltb q (base + n)

module _ (pg : ℕ → Page) where
  -- Page `q` lies in one of the blocks.
  unfoldable pub covered : List ℕ → ℕ → Bool
  covered [] q = false
  covered (x ∷ xs) q = in_range x (pg x).property q || covered xs q

  -- The blocks lie at or above `lo`, in rising order, apart from one another; each is flagged.
  abbrev pub Blocks : ℕ → List ℕ → Type 0
  Blocks lo [] = Unit
  Blocks lo (x ∷ xs) =
      (lo ≤ x)
      × (0 < (pg x).property)
      × (page_property (pg x) ≡ true)
      × Blocks (x + (pg x).property) xs

  unfoldable pub total : List ℕ → ℕ
  total [] = 0
  total (x ∷ xs) = (pg x).property + total xs

  -- No block of the sequence has `n` pages.
  abbrev pub AllSmall : ℕ → List ℕ → Type 0
  AllSmall n [] = Unit
  AllSmall n (x ∷ xs) = ((pg x).property < n) × AllSmall n xs

  -- First fit: the first block of at least `n` pages.
  unfoldable pub first_fit : ℕ → List ℕ → Option ℕ
  first_fit n [] = none
  first_fit n (x ∷ xs) = if leb n (pg x).property then some x else first_fit n xs

  pub Blocks-weaken : (lo lo' : ℕ) (xs : List ℕ) → lo' ≤ lo → Blocks lo xs → Blocks lo' xs
  Blocks-weaken lo lo' [] h b = tt
  Blocks-weaken lo lo' (x ∷ xs) h b = (omega arith, b.1, b.2, b.3)

  pub Blocks-lower : (lo u : ℕ) (xs : List ℕ) → Blocks lo xs → has u xs ≡ true → lo ≤ u
  Blocks-lower lo u [] b i = absurd (ground arith)
  Blocks-lower lo u (x ∷ xs) b i = ground (arith, Blocks-lower (x + (pg x).property) u xs b.3)

  pub Blocks-mid : (lo x : ℕ) (ys zs : List ℕ) → Blocks lo (ys ++ x ∷ zs) → lo ≤ x
  Blocks-mid lo x [] zs b = b.0
  Blocks-mid lo x (y ∷ ys) zs b =
      omega (arith, b.0, b.1, Blocks-mid (y + (pg y).property) x ys zs b.3)

  -- No other block starts strictly inside a block.
  pub Blocks-gap :
      (lo x u : ℕ) (ys zs : List ℕ)
      → Blocks lo (ys ++ x ∷ zs)
      → x < u
      → u < x + (pg x).property
      → has u (ys ++ zs) ≡ false
  Blocks-gap lo x u [] zs b h k = ground (arith, Blocks-lower (x + (pg x).property) u zs b.3)
  Blocks-gap lo x u (y ∷ ys) zs b h k = ground (
    arith,
    Blocks-mid (y + (pg y).property) x ys zs b.3,
    Blocks-gap (y + (pg y).property) x u ys zs b.3,
  )

  -- Nothing below the bound is covered.
  pub covered-below : (lo q : ℕ) (xs : List ℕ) → Blocks lo xs → q < lo → covered xs q ≡ false
  unfolding covered
  covered-below lo q [] b h = refl
  covered-below lo q (x ∷ xs) b h = ground (arith, covered-below (x + (pg x).property) q xs b.3)

module _ (pg pg' : ℕ → Page) where
  pub Blocks-frame :
      (lo : ℕ) (xs : List ℕ)
      → ((u : ℕ) → has u xs ≡ true → pg' u ≡ pg u)
      → Blocks pg lo xs
      → Blocks pg' lo xs
  Blocks-frame lo [] same b = tt
  Blocks-frame lo (x ∷ xs) same b =
      let e : pg' x ≡ pg x = same x (ground arith) in
      rw e (b.0, b.1, b.2, Blocks-frame (x + (pg x).property) xs (λ u i. same u (ground arith)) b.3)

  pub covered-frame :
      (q : ℕ) (xs : List ℕ)
      → ((u : ℕ) → has u xs ≡ true → pg' u ≡ pg u)
      → covered pg' xs q ≡ covered pg xs q
  unfolding covered
  covered-frame q [] same = refl
  covered-frame q (x ∷ xs) same =
      let e : pg' x ≡ pg x = same x (ground arith) in
      rw (e, covered-frame q xs (λ u i. same u (ground arith)))

  pub total-frame :
      (xs : List ℕ) → ((u : ℕ) → has u xs ≡ true → pg' u ≡ pg u) → total pg' xs ≡ total pg xs
  unfolding total
  total-frame [] same = refl
  total-frame (x ∷ xs) same =
      let e : pg' x ≡ pg x = same x (ground arith) in
      rw (e, total-frame xs (λ u i. same u (ground arith)))

-- The list that the pointers of the state form, and what its blocks amount to.
pub record FreeList (s : Pmm) (xs : List ℕ) : Type 0 where
  pub ring : Ring s.links free_list (map page_link xs)
  pub blocks : Blocks s.page 0 xs
  pub counted : s.nr_free ≡ total s.page xs
  pub small : s.nr_free < 2 ^ 32
