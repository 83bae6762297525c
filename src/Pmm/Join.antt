-- ===== src/Pmm/Join.antt =====
-- What merging a block with the one that begins where it ends does to the sequence of blocks.
use mathlib.Core.List.{map-append, append_assoc}
use os_lab.Base.{ℕ, ◌+◌, ◌≡◌, ◌≢◌, refl, sym, ◌∙◌, true, List, [], ◌∷◌, ◌++◌, map, has, arith}
use os_lab.Links.{list_del}
use os_lab.Links.Chain.{Ring}
use os_lab.Links.Ring.{list_del-Ring}
use os_lab.Pmm.{Page, Pmm, page_property, page_link, free_list}
use os_lab.Pmm.Blocks.{
  covered, covered-frame, total-frame, Blocks, Blocks-frame, Blocks-lower, Blocks-mid, total,
  Blocks-weaken, FreeList,
}

-- The pages before and after block `w` has taken in block `b`.
pub record Joined (pg pg' : ℕ → Page) (w b : ℕ) : Type 0 where
  pub meet : w + (pg w).property ≡ b
  pub size : (pg' w).property ≡ (pg w).property + (pg b).property
  pub flag : page_property (pg' w) ≡ page_property (pg w)
  pub same : (u : ℕ) → u ≢ w → u ≢ b → pg' u ≡ pg u

module _ {pg pg' : ℕ → Page} {w b : ℕ} (j : Joined pg pg' w b) where
  behind :
      (lo : ℕ) (zs : List ℕ) → Blocks pg lo (w ∷ b ∷ zs) → (u : ℕ) → has u zs ≡ true → pg' u ≡ pg u
  behind lo zs l u i =
      let low = Blocks-lower pg (b + (pg b).property) u zs l.3.3 i in
      j.same u (omega (arith, l.1, l.3.0, l.3.1, low)) (omega (arith, l.3.1, low))

  pub Joined-Blocks :
      (lo : ℕ) (vs zs : List ℕ) → Blocks pg lo (vs ++ w ∷ b ∷ zs) → Blocks pg' lo (vs ++ w ∷ zs)
  Joined-Blocks lo [] zs l = (
    l.0,
    omega (arith, j.size, l.1),
    j.flag ∙ l.2,
    Blocks-weaken pg' (b + (pg b).property) (w + (pg' w).property) zs
        (omega (arith, j.size, j.meet))
        (Blocks-frame pg pg' (b + (pg b).property) zs (behind lo zs l) l.3.3),
  )
  Joined-Blocks lo (v ∷ vs) zs l =
      let m = Blocks-mid pg (v + (pg v).property) w vs (b ∷ zs) l.3 in
      rw (j.same v (omega (arith, m, l.1)) (omega (arith, m, l.1, j.meet)))
        (l.0, l.1, l.2, Joined-Blocks (v + (pg v).property) vs zs l.3)

  pub Joined-covered :
      (lo q : ℕ) (vs zs : List ℕ)
      → Blocks pg lo (vs ++ w ∷ b ∷ zs)
      → covered pg' (vs ++ w ∷ zs) q ≡ covered pg (vs ++ w ∷ b ∷ zs) q
  unfolding covered
  Joined-covered lo q [] zs l =
      ground (arith, j.size, j.meet, covered-frame pg pg' q zs (behind lo zs l))
  Joined-covered lo q (v ∷ vs) zs l =
      let m = Blocks-mid pg (v + (pg v).property) w vs (b ∷ zs) l.3 in
      rw
        (
          j.same v (omega (arith, m, l.1)) (omega (arith, m, l.1, j.meet)),
          Joined-covered (v + (pg v).property) q vs zs l.3,
        )
        refl

  pub Joined-total :
      (lo : ℕ) (vs zs : List ℕ)
      → Blocks pg lo (vs ++ w ∷ b ∷ zs)
      → total pg' (vs ++ w ∷ zs) ≡ total pg (vs ++ w ∷ b ∷ zs)
  unfolding total
  Joined-total lo [] zs l = omega (arith, j.size, total-frame pg pg' zs (behind lo zs l))
  Joined-total lo (v ∷ vs) zs l =
      let m = Blocks-mid pg (v + (pg v).property) w vs (b ∷ zs) l.3 in
      rw
        (
          j.same v (omega (arith, m, l.1)) (omega (arith, m, l.1, j.meet)),
          Joined-total (v + (pg v).property) vs zs l.3,
        )
        refl

-- Two neighbours of the free list that merge leave a free list of the same pages.
pub FreeList-join :
    (s : Pmm) (pg' : ℕ → Page) (w b : ℕ) (vs zs : List ℕ)
    → FreeList s (vs ++ w ∷ b ∷ zs)
    → Joined s.page pg' w b
    → FreeList (record s { page = pg'; links = list_del (page_link b) s.links }) (vs ++ w ∷ zs)
FreeList-join s pg' w b vs zs l j =
    let vl = map page_link vs in
    let zl = map page_link zs in
    let r : Ring s.links free_list (vl ++ page_link w ∷ page_link b ∷ zl) =
      rw map-append at l.ring in
    let out =
      list_del-Ring s.links {a = free_list} (page_link b) (vl ++ page_link w ∷ []) zl
        (rw append_assoc r) in
    record {
      ring = rw map-append (rw append_assoc at out);
      blocks = Joined-Blocks j 0 vs zs l.blocks;
      counted = l.counted ∙ sym (Joined-total j 0 vs zs l.blocks);
      small = l.small;
    }
