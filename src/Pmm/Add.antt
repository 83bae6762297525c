-- ===== src/Pmm/Add.antt =====
-- What putting a block of `n` pages from `base` on among the free blocks does to their sequence.
use os_lab.Base.{
  ℕ, ◌+◌, ◌≤◌, ◌<◌, ◌≡◌, refl, ap, true, false, ◌||◌, inl, inr, List, [], ◌∷◌, ◌++◌, ltb, arith,
  Bool-cases,
}
use os_lab.Pmm.{Page, page_property}
use os_lab.Pmm.Blocks.{in_range, covered, Blocks, total}

module _ (pg : ℕ → Page) (base n : ℕ) where
  abbrev pub EndsBelow : List ℕ → Type 0
  EndsBelow [] = Unit
  EndsBelow (w ∷ ws) = (w + (pg w).property ≤ base) × EndsBelow ws

  abbrev pub StartsAbove : List ℕ → Type 0
  StartsAbove [] = Unit
  StartsAbove (z ∷ zs) = (base + n ≤ z) × StartsAbove zs

  -- The place of the new block.
  pub record Gap (xs : List ℕ) : Type 0 where
    pub front : List ℕ
    pub back : List ℕ
    pub split : xs ≡ front ++ back
    pub low : EndsBelow front
    pub high : StartsAbove back

  Blocks-StartsAbove : (lo : ℕ) (zs : List ℕ) → base + n ≤ lo → Blocks pg lo zs → StartsAbove zs
  Blocks-StartsAbove lo [] h b = tt
  Blocks-StartsAbove lo (z ∷ zs) h b = (
    omega (arith, b.0),
    Blocks-StartsAbove (z + (pg z).property) zs (omega (arith, b.0, b.1)) b.3,
  )

  -- If none of the new pages is free already, there is such a place.
  pub find-Gap :
      (lo : ℕ) (xs : List ℕ)
      → Blocks pg lo xs
      → 0 < n
      → ((q : ℕ) → in_range base n q ≡ true → covered pg xs q ≡ false)
      → Gap xs
  unfolding covered
  find-Gap lo [] b p f = record { front = []; back = []; split = refl; low = tt; high = tt }
  find-Gap lo (x ∷ xs) b p f = elim (Bool-cases (ltb x base)) [
    | inl below ↦
        let g = find-Gap (x + (pg x).property) xs b.3 p (λ q i. ground (arith, f q i)) in
        record {
          front = x ∷ g.front;
          back = g.back;
          split = ap (λ l. x ∷ l) g.split;
          low = (ground (arith, f base (ground arith)), g.low);
          high = g.high;
        }
    | inr above ↦
        let clear : base + n ≤ x = elim (Bool-cases (ltb x (base + n))) [
          | inl inside ↦ absurd (ground (arith, f x (ground arith), b.1))
          | inr outside ↦ ground arith
        ] in
        record {
          front = [];
          back = x ∷ xs;
          split = refl;
          low = tt;
          high = (clear, Blocks-StartsAbove (x + (pg x).property) xs (omega (arith, clear)) b.3);
        }
  ]

-- The pages before and after.
pub record Added (pg pg' : ℕ → Page) (base n : ℕ) : Type 0 where
  pub pos : 0 < n
  pub same : (q : ℕ) → in_range base n q ≡ false → pg' q ≡ pg q
  pub size : (pg' base).property ≡ n
  pub flag : page_property (pg' base) ≡ true

module _ {pg pg' : ℕ → Page} {base n : ℕ} (a : Added pg pg' base n) where
  same_back : (lo : ℕ) (zs : List ℕ) → StartsAbove pg base n zs → Blocks pg lo zs → Blocks pg' lo zs
  same_back lo [] h b = tt
  same_back lo (z ∷ zs) h b =
      rw (a.same z (ground (arith, h.0)))
        (b.0, b.1, b.2, same_back (z + (pg z).property) zs h.1 b.3)

  covered_back :
      (q : ℕ) (zs : List ℕ) → StartsAbove pg base n zs → covered pg' zs q ≡ covered pg zs q
  unfolding covered
  covered_back q [] h = refl
  covered_back q (z ∷ zs) h = rw (a.same z (ground (arith, h.0)), covered_back q zs h.1) refl

  total_back : (zs : List ℕ) → StartsAbove pg base n zs → total pg' zs ≡ total pg zs
  unfolding total
  total_back [] h = refl
  total_back (z ∷ zs) h = rw (a.same z (ground (arith, h.0)), total_back zs h.1) refl

  Blocks-rise :
      (lo lo' : ℕ) (zs : List ℕ)
      → StartsAbove pg base n zs
      → lo' ≤ base + n
      → Blocks pg lo zs
      → Blocks pg lo' zs
  Blocks-rise lo lo' [] h l b = tt
  Blocks-rise lo lo' (z ∷ zs) h l b = (omega (arith, h.0), b.1, b.2, b.3)

  pub Added-Blocks :
      (lo : ℕ) (ws zs : List ℕ)
      → Blocks pg lo (ws ++ zs)
      → EndsBelow pg base n ws
      → StartsAbove pg base n zs
      → lo ≤ base
      → Blocks pg' lo (ws ++ base ∷ zs)
  Added-Blocks lo [] zs b l h r = (
    r,
    omega (arith, a.size, a.pos),
    a.flag,
    same_back (base + (pg' base).property) zs h
        (Blocks-rise lo (base + (pg' base).property) zs h (omega (arith, a.size)) b),
  )
  Added-Blocks lo (w ∷ ws) zs b l h r =
      rw (a.same w (ground (arith, l.0, b.1)))
        (b.0, b.1, b.2, Added-Blocks (w + (pg w).property) ws zs b.3 l.1 h l.0)

  pub Added-covered :
      (lo q : ℕ) (ws zs : List ℕ)
      → Blocks pg lo (ws ++ zs)
      → EndsBelow pg base n ws
      → StartsAbove pg base n zs
      → covered pg' (ws ++ base ∷ zs) q ≡ (covered pg (ws ++ zs) q || in_range base n q)
  unfolding covered
  Added-covered lo q [] zs b l h = ground (arith, a.size, covered_back q zs h)
  Added-covered lo q (w ∷ ws) zs b l h =
      rw (a.same w (ground (arith, l.0, b.1)))
        (ground (arith, Added-covered (w + (pg w).property) q ws zs b.3 l.1 h))

  pub Added-total :
      (lo : ℕ) (ws zs : List ℕ)
      → Blocks pg lo (ws ++ zs)
      → EndsBelow pg base n ws
      → StartsAbove pg base n zs
      → total pg' (ws ++ base ∷ zs) ≡ total pg (ws ++ zs) + n
  unfolding total
  Added-total lo [] zs b l h = omega (arith, a.size, total_back zs h)
  Added-total lo (w ∷ ws) zs b l h =
      rw (a.same w (ground (arith, l.0, b.1)))
        (omega (arith, Added-total (w + (pg w).property) ws zs b.3 l.1 h))
