-- ===== src/Pmm/Merge.antt =====
-- The two merges of `default_free_pages` in kern/mm/default_pmm.c.
use mathlib.Core.List.{map-append, append_assoc}
use os_lab.Base.{
  ℕ, ◌+◌, ◌%◌, ◌≤◌, ◌<◌, ◌^◌, ◌≡◌, refl, ap, subst, ◌∙◌, true, false, ◌⊎◌, inl, inr, List, [], ◌∷◌,
  ◌++◌, map, ◌==◌, has, has-append, length, arith, Bool-cases,
}
use os_lab.Links.{list_del, update}
use os_lab.Links.Chain.{first, last}
use os_lab.Links.Ring.{Chain-cut, Chain-after}
use os_lab.Pmm.{
  Page, Pmm, page_property, clear_page_property, page_link, free_list, merge_prev, merge_next,
  merge_both,
}
use os_lab.Pmm.Blocks.{covered, Blocks, total, FreeList}
use os_lab.Pmm.Edges.{
  NoneEnds, NoneBegins, Blocks-pair, Blocks-positive, ends_front, ends_first, begins_behind,
  begins_last, sides, inside_ends, inside_begins,
}
use os_lab.Pmm.Join.{Joined, FreeList-join, Joined-covered}

-- The same pages are free, in the blocks `ys` in place of `xs`.
pub record Merged (s t : Pmm) (xs ys : List ℕ) : Type 0 where
  pub valid : FreeList t ys
  pub frees : (q : ℕ) → covered t.page ys q ≡ covered s.page xs q
  pub count : t.nr_free ≡ s.nr_free

Snoc : List ℕ → Type 0
Snoc ws = (ws ≡ []) ⊎ ((vs : List ℕ) × (w : ℕ) × (ws ≡ vs ++ w ∷ []))

snoc : (ws : List ℕ) → Snoc ws
unfolding Snoc
snoc [] = inl refl
snoc (x ∷ xs) = snoc_cons x xs (snoc xs)
  where
    snoc_cons : (x : ℕ) (xs : List ℕ) → Snoc xs → Snoc (x ∷ xs)
    snoc_cons x xs (inl e) = inr ([], x, ap (λ l. x ∷ l) e)
    snoc_cons x xs (inr (vs, w, e)) = inr (x ∷ vs, w, ap (λ l. x ∷ l) e)

last-snoc : (a w : ℕ) (vs : List ℕ) → last a (map page_link (vs ++ w ∷ [])) ≡ page_link w
last-snoc a w [] = refl
last-snoc a w (v ∷ vs) = last-snoc (page_link v) w vs

-- Two blocks together have at most as many pages as are free.
total-pair :
    (pg : ℕ → Page) (w b : ℕ) (vs zs : List ℕ)
    → (pg w).property + (pg b).property ≤ total pg (vs ++ w ∷ b ∷ zs)
unfolding total
total-pair pg w b [] zs = omega arith
total-pair pg w b (v ∷ vs) zs = omega (arith, total-pair pg w b vs zs)

Blocks-at :
    (pg : ℕ → Page) (lo w b : ℕ) (vs zs : List ℕ)
    → Blocks pg lo (vs ++ w ∷ b ∷ zs)
    → (0 < (pg w).property) × (0 < (pg b).property)
Blocks-at pg lo w b [] zs l = (l.1, l.3.1)
Blocks-at pg lo w b (v ∷ vs) zs l = Blocks-at pg (v + (pg v).property) w b vs zs l.3

-- The pages after block `w` has taken in block `b`, as both merges write them.
abbrev joined : (ℕ → Page) → ℕ → ℕ → ℕ → Page
joined pg w b =
    update (update pg w (record (pg w) { property = ((pg w).property + (pg b).property) % 2 ^ 32 }))
      b (clear_page_property (pg b))

joined-Joined :
    (s : Pmm) (w b : ℕ) (vs zs : List ℕ)
    → FreeList s (vs ++ w ∷ b ∷ zs)
    → w + (s.page w).property ≡ b
    → Joined s.page (joined s.page w b) w b
unfolding page_property
joined-Joined s w b vs zs l m =
    let pos = Blocks-at s.page 0 w b vs zs l.blocks in
    record {
      meet = m;
      size = ground (arith, pos.0, total-pair s.page w b vs zs, l.counted, l.small);
      flag = ground (arith, pos.0);
      same = λ u a c. ground arith;
    }

join-Merged :
    (s : Pmm) (w b : ℕ) (vs zs : List ℕ)
    → FreeList s (vs ++ w ∷ b ∷ zs)
    → w + (s.page w).property ≡ b
    → Merged s
        (record s { page = joined s.page w b; links = list_del (page_link b) s.links })
        (vs ++ w ∷ b ∷ zs)
        (vs ++ w ∷ zs)
join-Merged s w b vs zs l m =
    let j = joined-Joined s w b vs zs l m in
    record {
      valid = FreeList-join s (joined s.page w b) w b vs zs l j;
      frees = λ q. Joined-covered j 0 q vs zs l.blocks;
      count = refl;
    }

keep-Merged : (s : Pmm) (xs : List ℕ) → FreeList s xs → Merged s s xs xs
keep-Merged s xs l = record { valid = l; frees = λ q. refl; count = refl }

FreeList-prev :
    (s : Pmm) (base : ℕ) (ws zs : List ℕ)
    → FreeList s (ws ++ base ∷ zs)
    → s.links.prev (page_link base) ≡ last free_list (map page_link ws)
FreeList-prev s base ws zs l =
    (Chain-cut s.links free_list free_list (map page_link ws) (map page_link (base ∷ zs))
      (rw map-append at l.ring.chain)).1

FreeList-next :
    (s : Pmm) (base : ℕ) (ws zs : List ℕ)
    → FreeList s (ws ++ base ∷ zs)
    → s.links.next (page_link base) ≡ first (map page_link zs) free_list
FreeList-next s base ws zs l =
    Chain-after s.links free_list free_list (page_link base) (map page_link ws) (map page_link zs)
      (rw map-append at l.ring.chain)

module _ (s : Pmm) (base w : ℕ) (at : s.links.prev (page_link base) ≡ page_link w) where
  merge_prev-joins :
      w + (s.page w).property ≡ base
      → merge_prev base s
        ≡ (w, record s { page = joined s.page w base; links = list_del (page_link base) s.links })
  unfolding merge_prev
  merge_prev-joins m =
      let head : (page_link w == free_list) ≡ false = ground arith in
      let meets : (w + (s.page w).property == base) ≡ true = ground arith in
      rw (at, head, meets) refl

  merge_prev-keeps : (w + (s.page w).property == base) ≡ false → merge_prev base s ≡ (base, s)
  unfolding merge_prev
  merge_prev-keeps apart =
      let head : (page_link w == free_list) ≡ false = ground arith in rw (at, head, apart) refl

merge_prev-first :
    (s : Pmm) (base : ℕ) → s.links.prev (page_link base) ≡ free_list → merge_prev base s ≡ (base, s)
unfolding merge_prev
merge_prev-first s base at = rw at refl

-- The merge with the block in front: the block still ends where it did,
-- and none ends at `base`.
record Front (s t : Pmm) (base w : ℕ) (ys : List ℕ) : Type 0 where
  same_end : w + (t.page w).property ≡ base + (s.page base).property
  apart : NoneEnds t.page base ys

keep-Front : (s : Pmm) (base : ℕ) (ys : List ℕ) → NoneEnds s.page base ys → Front s s base base ys
keep-Front s base ys o = record { same_end = refl; apart = o }

merge_prev-Merged :
    (s : Pmm) (base : ℕ) (ws zs : List ℕ)
    → FreeList s (ws ++ base ∷ zs)
    → (ys : List ℕ) × Merged s
        (merge_prev base s).1
        (ws ++ base ∷ zs)
        (ys ++ (merge_prev base s).0 ∷ zs)
      × Front s (merge_prev base s).1 base (merge_prev base s).0 (ys ++ (merge_prev base s).0 ∷ zs)
unfolding Snoc
merge_prev-Merged s base ws zs l =
    let list = ws ++ base ∷ zs in
    let keep = keep-Merged s list l in
    elim (snoc ws) [
      | inl empty ↦
          let at : s.links.prev (page_link base) ≡ free_list =
            FreeList-prev s base ws zs l
            ∙ ap (λ (k : List ℕ). last free_list (map page_link k)) empty in
          let o : NoneEnds s.page base list = first_open s base ws zs empty l in
          (
            ws,
            rw (merge_prev-first s base at) keep,
            rw (merge_prev-first s base at) (keep-Front s base list o),
          )
      | inr (vs, w, e) ↦
          let at : s.links.prev (page_link base) ≡ page_link w =
            FreeList-prev s base ws zs l
            ∙ ap (λ (k : List ℕ). last free_list (map page_link k)) e
            ∙ last-snoc free_list w vs in
          let whole : ws ++ base ∷ zs ≡ vs ++ w ∷ base ∷ zs =
            ap (λ (k : List ℕ). k ++ base ∷ zs) e ∙ append_assoc vs (w ∷ []) (base ∷ zs) in
          let l' = subst (FreeList s) whole l in
          let pair = Blocks-pair s.page 0 w base vs zs l'.blocks in
          elim (Bool-cases (w + (s.page w).property == base)) [
            | inr apart ↦
                let o : NoneEnds s.page base list = λ u i m.
                  let front =
                    ends_front s.page 0 w base u vs zs (omega (arith, pair)) l'.blocks
                      (rw whole at i) m in
                  let there : w + (s.page w).property ≡ base =
                    subst (λ k. k + (s.page k).property ≡ base) front m in
                  ground (arith, apart, there) in
                (
                  ws,
                  rw (merge_prev-keeps s base w at apart) keep,
                  rw (merge_prev-keeps s base w at apart) (keep-Front s base list o),
                )
            | inl meets ↦
                let m : w + (s.page w).property ≡ base = ground arith in
                let j = joined-Joined s w base vs zs l' m in
                let merged = join-Merged s w base vs zs l' m in
                (
                  vs,
                  rw (merge_prev-joins s base w at m, whole) merged,
                  rw (merge_prev-joins s base w at m) (record {
                    same_end = omega (arith, m, j.size);
                    apart =
                        inside_ends (joined s.page w base) 0 w base vs zs merged.valid.blocks
                          (omega (arith, m, pair)) (omega (arith, m, pair, j.size));
                  }),
                )
          ]
    ]
  where
    first_open :
        (s : Pmm) (base : ℕ) (ws zs : List ℕ)
        → ws ≡ []
        → FreeList s (ws ++ base ∷ zs)
        → NoneEnds s.page base (ws ++ base ∷ zs)
    first_open s base [] zs e l = ends_first s.page 0 base zs l.blocks
    first_open s base (w ∷ ws) zs e l = absurd (ground (arith, ap length e))

-- No block ends at `b`, below the block that takes in the one behind it, after that either.
join-NoneEnds :
    (s : Pmm) (b base z : ℕ) (ws zs : List ℕ)
    → FreeList s (ws ++ base ∷ z ∷ zs)
    → base + (s.page base).property ≡ z
    → b < z
    → NoneEnds s.page b (ws ++ base ∷ z ∷ zs)
    → NoneEnds (joined s.page base z) b (ws ++ base ∷ zs)
join-NoneEnds s b base z ws zs l m low o u i e =
    let j = joined-Joined s base z ws zs l m in
    let pair = Blocks-pair s.page 0 base z ws zs l.blocks in
    let pg' = joined s.page base z in
    elim (sides pg' 0 base u ws zs (join-Merged s base z ws zs l m).valid.blocks i) [
      | inl before ↦
          let same =
            ap (λ (p : Page). p.property)
              (j.same u (omega (arith, before)) (omega (arith, before, m))) in
          let listed : has u (ws ++ base ∷ z ∷ zs) ≡ true =
            ground (arith, i, has-append u ws (base ∷ zs), has-append u ws (base ∷ z ∷ zs)) in
          o u listed (omega (arith, same, e))
      | inr (inl itself) ↦
          let same = ap (λ v. (pg' v).property) itself in
          omega (arith, same, j.size, pair, e, itself, low, m)
      | inr (inr after) ↦ omega (arith, after, j.size, pair, e, low, m)
    ]

-- The merge with the block behind: none begins where the block ended, and none ends at `b`, where
-- none did before.
merge_next-Merged :
    (s : Pmm) (b base : ℕ) (ws zs : List ℕ)
    → FreeList s (ws ++ base ∷ zs)
    → b < base + (s.page base).property
    → NoneEnds s.page b (ws ++ base ∷ zs)
    → (ys : List ℕ) × Merged s (merge_next base s) (ws ++ base ∷ zs) ys
      × NoneEnds (merge_next base s).page b ys
      × NoneBegins (base + (s.page base).property) ys
unfolding merge_next
merge_next-Merged s b base ws [] l low o =
    let at : s.links.next (page_link base) ≡ free_list = FreeList-next s base ws [] l in
    (
      ws ++ base ∷ [],
      rw at (keep-Merged s (ws ++ base ∷ []) l),
      rw at o,
      begins_last s.page 0 base ws l.blocks,
    )
merge_next-Merged s b base ws (z ∷ zs) l low o =
    let at : s.links.next (page_link base) ≡ page_link z = FreeList-next s base ws (z ∷ zs) l in
    let head : (page_link z == free_list) ≡ false = ground arith in
    let pair = Blocks-pair s.page 0 base z ws zs l.blocks in
    elim (Bool-cases (base + (s.page base).property == z)) [
      | inl meets ↦
          let m : base + (s.page base).property ≡ z = ground arith in
          let merged = join-Merged s base z ws zs l m in
          let j = joined-Joined s base z ws zs l m in
          (
            ws ++ base ∷ zs,
            rw (at, head, meets) merged,
            rw (at, head, meets) (join-NoneEnds s b base z ws zs l m (omega (arith, low, m)) o),
            inside_begins (joined s.page base z) 0 base (base + (s.page base).property) ws zs
                merged.valid.blocks (omega (arith, pair)) (omega (arith, pair, j.size)),
          )
      | inr apart ↦ (
        ws ++ base ∷ z ∷ zs,
        rw (at, head, apart) (keep-Merged s (ws ++ base ∷ z ∷ zs) l),
        rw (at, head, apart) o,
        λ u i e.
            let behind = begins_behind s.page 0 base z u ws zs l.blocks i e in
            ground (arith, apart, behind, e),
      )
    ]

-- Both merges, one after the other: no block ends where the given one began, and none begins where
-- it ended.
pub merge_both-Merged :
    (s : Pmm) (base : ℕ) (ws zs : List ℕ)
    → FreeList s (ws ++ base ∷ zs)
    → (ys : List ℕ) × Merged s (merge_both base s) (ws ++ base ∷ zs) ys
      × NoneEnds (merge_both base s).page base ys
      × NoneBegins (base + (s.page base).property) ys
unfolding merge_both
merge_both-Merged s base ws zs l =
    let (ys, m, f) = merge_prev-Merged s base ws zs l in
    let (ys', m', ends, begins) =
      merge_next-Merged (merge_prev base s).1 base (merge_prev base s).0 ys zs m.valid
        (omega (arith, f.same_end, Blocks-positive s.page 0 base ws zs l.blocks)) f.apart in
    (
      ys',
      record { valid = m'.valid; frees = λ q. m'.frees q ∙ m.frees q; count = m'.count ∙ m.count },
      ends,
      λ u i e. begins u i (omega (arith, e, f.same_end)),
    )
