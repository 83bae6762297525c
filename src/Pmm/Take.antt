-- ===== src/Pmm/Take.antt =====
-- What taking `n` pages from the front of block `x` does to the sequence of blocks.
use os_lab.Base.{
  ℕ, ◌+◌, ◌-◌, ◌≤◌, ◌<◌, ◌≡◌, ◌≢◌, true, ◌&&◌, not, inl, inr, List, [], ◌∷◌, ◌++◌, ltb, ◌==◌, has,
  if◌then◌else◌, arith, Bool-cases,
}
use os_lab.Pmm.{Page, page_property}
use os_lab.Pmm.Blocks.{
  in_range, covered, Blocks, total, Blocks-weaken, Blocks-lower, Blocks-mid, covered-below,
  Blocks-frame, covered-frame, total-frame,
}

-- What is left in the place of block `x`, in front of the blocks `zs`.
abbrev pub rest : (ℕ → Page) → ℕ → ℕ → List ℕ → List ℕ
rest pg x n zs = if ltb n (pg x).property then (x + n) ∷ zs else zs

-- The pages before and after.
pub record Taken (pg pg' : ℕ → Page) (x n : ℕ) : Type 0 where
  pub pos : 0 < n
  pub fits : n ≤ (pg x).property
  pub same : (u : ℕ) → u ≢ x → u ≢ x + n → pg' u ≡ pg u
  pub whole : (pg x).property ≡ n → pg' (x + n) ≡ pg (x + n)
  pub tail :
      n < (pg x).property
      → ((pg' (x + n)).property ≡ (pg x).property - n) × (page_property (pg' (x + n)) ≡ true)

module _ {pg pg' : ℕ → Page} {x n : ℕ} (t : Taken pg pg' x n) where
  same_above : (u : ℕ) → x + (pg x).property ≤ u → pg' u ≡ pg u
  same_above u h = elim (Bool-cases (u == x + n)) [
    | inl e ↦ ground (arith, t.whole, t.fits, t.pos)
    | inr ne ↦ t.same u (ground (arith, t.fits, t.pos)) (ground arith)
  ]

  same_behind :
      (zs : List ℕ) → Blocks pg (x + (pg x).property) zs → (u : ℕ) → has u zs ≡ true → pg' u ≡ pg u
  same_behind zs b u i = same_above u (Blocks-lower pg (x + (pg x).property) u zs b i)

  same_below : (u : ℕ) → u < x → pg' u ≡ pg u
  same_below u h = t.same u (omega arith) (omega arith)

  rest-Blocks : (zs : List ℕ) → Blocks pg (x + (pg x).property) zs → Blocks pg' x (rest pg x n zs)
  rest-Blocks zs b =
      let after = Blocks-frame pg pg' (x + (pg x).property) zs (same_behind zs b) b in
      elim (Bool-cases (ltb n (pg x).property)) [
        | inl less ↦
            let less' : n < (pg x).property = ground arith in
            let (size, flag) = t.tail less' in
            rw less (
              omega arith,
              omega (arith, size),
              flag,
              Blocks-weaken pg' (x + (pg x).property) (x + n + (pg' (x + n)).property) zs
                  (omega (arith, size, t.fits)) after,
            )
        | inr all ↦ rw all (Blocks-weaken pg' (x + (pg x).property) x zs (omega arith) after)
      ]

  rest-covered :
      (q : ℕ) (zs : List ℕ)
      → Blocks pg (x + (pg x).property) zs
      → covered pg' (rest pg x n zs) q ≡ (covered pg (x ∷ zs) q && not (in_range x n q))
  unfolding covered
  rest-covered q zs b = ground (
    arith,
    t.tail,
    t.fits,
    t.pos,
    covered-frame pg pg' q zs (same_behind zs b),
    covered-below pg (x + (pg x).property) q zs b,
  )

  rest-total :
      (zs : List ℕ)
      → Blocks pg (x + (pg x).property) zs
      → total pg' (rest pg x n zs) + n ≡ total pg (x ∷ zs)
  unfolding total
  rest-total zs b = ground (arith, t.tail, t.fits, total-frame pg pg' zs (same_behind zs b))

  pub Taken-Blocks :
      (lo : ℕ) (ys zs : List ℕ) → Blocks pg lo (ys ++ x ∷ zs) → Blocks pg' lo (ys ++ rest pg x n zs)
  Taken-Blocks lo [] zs b = Blocks-weaken pg' x lo (rest pg x n zs) b.0 (rest-Blocks zs b.3)
  Taken-Blocks lo (y ∷ ys) zs b =
      let m = Blocks-mid pg (y + (pg y).property) x ys zs b.3 in
      rw (same_below y (omega (arith, m, b.1)))
        (b.0, b.1, b.2, Taken-Blocks (y + (pg y).property) ys zs b.3)

  pub Taken-covered :
      (lo q : ℕ) (ys zs : List ℕ)
      → Blocks pg lo (ys ++ x ∷ zs)
      → covered pg' (ys ++ rest pg x n zs) q ≡ (covered pg (ys ++ x ∷ zs) q && not (in_range x n q))
  unfolding covered
  Taken-covered lo q [] zs b = rest-covered q zs b.3
  Taken-covered lo q (y ∷ ys) zs b =
      let m = Blocks-mid pg (y + (pg y).property) x ys zs b.3 in
      rw (same_below y (omega (arith, m, b.1)))
        (ground (arith, Taken-covered (y + (pg y).property) q ys zs b.3, m))

  pub Taken-total :
      (lo : ℕ) (ys zs : List ℕ)
      → Blocks pg lo (ys ++ x ∷ zs)
      → total pg' (ys ++ rest pg x n zs) + n ≡ total pg (ys ++ x ∷ zs)
  unfolding total
  Taken-total lo [] zs b = rest-total zs b.3
  Taken-total lo (y ∷ ys) zs b =
      let m = Blocks-mid pg (y + (pg y).property) x ys zs b.3 in
      rw (same_below y (omega (arith, m, b.1)))
        (omega (arith, Taken-total (y + (pg y).property) ys zs b.3))
