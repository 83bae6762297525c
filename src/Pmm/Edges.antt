-- ===== src/Pmm/Edges.antt =====
-- Where the blocks of the free list in kern/mm/default_pmm.c begin and end.
use os_lab.Base.{
  ℕ, ◌+◌, ◌≤◌, ◌<◌, ◌≡◌, ◌≢◌, ap, ◌⊎◌, inl, inr, Bool-cases, ◌==◌, true, List, [], ◌∷◌, ◌++◌, has,
  arith,
}
use os_lab.Pmm.{Page}
use os_lab.Pmm.Blocks.{Blocks, Blocks-lower, Blocks-mid}

-- No block of the sequence ends at `b`.
abbrev pub NoneEnds : (ℕ → Page) → ℕ → List ℕ → Type 0
NoneEnds pg b ys = (u : ℕ) → has u ys ≡ true → u + (pg u).property ≢ b

-- No block of the sequence begins at `e`.
abbrev pub NoneBegins : ℕ → List ℕ → Type 0
NoneBegins e ys = (u : ℕ) → has u ys ≡ true → u ≢ e

module _ (pg : ℕ → Page) where
  pub Blocks-positive :
      (lo b : ℕ) (vs zs : List ℕ) → Blocks pg lo (vs ++ b ∷ zs) → 0 < (pg b).property
  Blocks-positive lo b [] zs l = l.1
  Blocks-positive lo b (v ∷ vs) zs l = Blocks-positive (v + (pg v).property) b vs zs l.3

  pub Blocks-pair :
      (lo w b : ℕ) (vs zs : List ℕ)
      → Blocks pg lo (vs ++ w ∷ b ∷ zs)
      → (0 < (pg w).property) × (w + (pg w).property ≤ b) × (0 < (pg b).property)
  Blocks-pair lo w b [] zs l = (l.1, l.3.0, l.3.1)
  Blocks-pair lo w b (v ∷ vs) zs l = Blocks-pair (v + (pg v).property) w b vs zs l.3

  -- The block in front is the only one that can end where a block begins.
  pub ends_front :
      (lo w b u : ℕ) (vs zs : List ℕ)
      → w < b
      → Blocks pg lo (vs ++ w ∷ b ∷ zs)
      → has u (vs ++ w ∷ b ∷ zs) ≡ true
      → u + (pg u).property ≡ b
      → u ≡ w
  ends_front lo w b u [] zs h l i e =
      ground (arith, l.1, l.3.0, l.3.1, Blocks-lower pg (b + (pg b).property) u zs l.3.3)
  ends_front lo w b u (v ∷ vs) zs h l i e =
      let m = Blocks-mid pg (v + (pg v).property) w vs (b ∷ zs) l.3 in
      ground (arith, m, ends_front (v + (pg v).property) w b u vs zs h l.3)

  -- The block behind is the only one that can begin where a block ends.
  pub begins_behind :
      (lo b z u : ℕ) (vs zs : List ℕ)
      → Blocks pg lo (vs ++ b ∷ z ∷ zs)
      → has u (vs ++ b ∷ z ∷ zs) ≡ true
      → u ≡ b + (pg b).property
      → u ≡ z
  begins_behind lo b z u [] zs l i e =
      ground (arith, l.1, l.3.0, l.3.1, Blocks-lower pg (z + (pg z).property) u zs l.3.3)
  begins_behind lo b z u (v ∷ vs) zs l i e =
      let m = Blocks-mid pg (v + (pg v).property) b vs (z ∷ zs) l.3 in
      ground (arith, m, l.1, begins_behind (v + (pg v).property) b z u vs zs l.3)

  -- No block begins where the last one ends.
  pub begins_last :
      (lo b : ℕ) (vs : List ℕ)
      → Blocks pg lo (vs ++ b ∷ [])
      → NoneBegins (b + (pg b).property) (vs ++ b ∷ [])
  begins_last lo b [] l u i = ground (arith, l.1)
  begins_last lo b (v ∷ vs) l u i =
      let m = Blocks-mid pg (v + (pg v).property) b vs [] l.3 in
      ground (arith, m, l.1, begins_last (v + (pg v).property) b vs l.3 u)

  -- No block ends where the first one begins.
  pub ends_first : (lo b : ℕ) (zs : List ℕ) → Blocks pg lo (b ∷ zs) → NoneEnds pg b (b ∷ zs)
  ends_first lo b zs l u i = ground (arith, l.1, Blocks-lower pg (b + (pg b).property) u zs l.3)

  -- A block lies in front of the block `w`, is it, or lies behind it.
  pub sides :
      (lo w u : ℕ) (vs zs : List ℕ)
      → Blocks pg lo (vs ++ w ∷ zs)
      → has u (vs ++ w ∷ zs) ≡ true
      → ((u < w) × (u + (pg u).property ≤ w)) ⊎ ((u ≡ w) ⊎ (w + (pg w).property ≤ u))
  sides lo w u [] zs l i = elim (Bool-cases (u == w)) [
    | inl e ↦ inr (inl (ground arith))
    | inr n ↦ inr (inr (Blocks-lower pg (w + (pg w).property) u zs l.3 (ground (arith, i, n))))
  ]
  sides lo w u (v ∷ vs) zs l i = elim (Bool-cases (u == v)) [
    | inl e ↦
        let m = Blocks-mid pg (v + (pg v).property) w vs zs l.3 in
        let same : u ≡ v = ground arith in inl (rw same (omega (arith, m, l.1), m))
    | inr n ↦ sides (v + (pg v).property) w u vs zs l.3 (ground (arith, i, n))
  ]

  -- A block that begins below a place and ends above it leaves no edge there.
  pub inside_ends :
      (lo w b : ℕ) (vs zs : List ℕ)
      → Blocks pg lo (vs ++ w ∷ zs)
      → w < b
      → b < w + (pg w).property
      → NoneEnds pg b (vs ++ w ∷ zs)
  inside_ends lo w b vs zs l h k u i e = elim (sides lo w u vs zs l i) [
    | inl s ↦ omega (arith, s.1)
    | inr (inl s) ↦
        let at : (pg u).property ≡ (pg w).property = ap (λ x. (pg x).property) s in
        omega (arith, at)
    | inr (inr s) ↦ omega arith
  ]

  pub inside_begins :
      (lo w b : ℕ) (vs zs : List ℕ)
      → Blocks pg lo (vs ++ w ∷ zs)
      → w < b
      → b < w + (pg w).property
      → NoneBegins b (vs ++ w ∷ zs)
  inside_begins lo w b vs zs l h k u i e = elim (sides lo w u vs zs l i) [
    | inl s ↦ omega (arith, s.0)
    | inr (inl s) ↦ omega arith
    | inr (inr s) ↦ omega arith
  ]
