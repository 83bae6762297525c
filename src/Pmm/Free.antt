-- ===== src/Pmm/Free.antt =====
-- `default_free_pages` and `default_init_memmap` of kern/mm/default_pmm.c against the sequence of free blocks.
use mathlib.Core.List.{map-append}
use os_lab.Base.{
  ℕ, zero, suc, ◌+◌, ◌<◌, ◌^◌, ◌≡◌, refl, ap, sym, ◌∙◌, true, false, ◌||◌, List, [], ◌∷◌, ◌++◌, map,
  ◌==◌, has, has-append, has-map-suc, length, length-append, arith, ok,
}
use os_lab.Atomic.Laws.{test-set}
use os_lab.Links.{Links, list_empty, list_add, list_add_before, update}
use os_lab.Links.Chain.{Ring, last}
use os_lab.Links.Ring.{list_add-Ring, list_add_before-Ring}
use os_lab.Pmm.{
  Page, Pmm, page_property, page_reserved, set_page_property, page_link, free_list, reset_pages,
  init_pages, default_init_memmap, add_block, insert_block, merge_both, default_free_pages,
}
use os_lab.Pmm.Blocks.{in_range, covered, Blocks, FreeList}
use os_lab.Pmm.Place.{AllLt, insert_loop-before}
use os_lab.Pmm.Add.{
  find-Gap, EndsBelow, StartsAbove, Added, Added-Blocks, Added-covered, Added-total,
}
use os_lab.Pmm.Edges.{NoneEnds, NoneBegins}
use os_lab.Pmm.Merge.{merge_both-Merged}

-- A page that may be freed: neither reserved nor the head of a free block.
abbrev pub IsUsed : Page → Type 0
IsUsed p = (page_reserved p ≡ false) × (page_property p ≡ false)

pub reset_pages-ok :
    (base n : ℕ) (pg : ℕ → Page)
    → ((q : ℕ) → in_range base n q ≡ true → IsUsed (pg q))
    → (pg' : ℕ → Page) × (reset_pages base n pg ≡ ok pg')
      × ((q : ℕ) → in_range base n q ≡ false → pg' q ≡ pg q)
unfolding reset_pages
reset_pages-ok base zero pg u = (pg, refl, λ q i. refl)
reset_pages-ok base (suc n) pg u =
    let next = update pg base (record (pg base) { ref = 0; flags = 0 }) in
    let (pg', run, same) =
      reset_pages-ok (suc base) n next (λ q i. ground (arith, u q (ground arith))) in
    let here = u base (ground arith) in
    (pg', rw (here.0, here.1) run, λ q i. ground (arith, same q))

-- The pages and the counter before the new block is linked in.
add_block-Added :
    (base n : ℕ) (s : Pmm) (pg : ℕ → Page)
    → 0 < n
    → n < 2 ^ 32
    → ((q : ℕ) → in_range base n q ≡ false → pg q ≡ s.page q)
    → Added s.page (add_block base n (record s { page = pg })).page base n
unfolding add_block set_page_property page_property
add_block-Added base n s pg p small same = record {
  pos = p;
  same = λ q i. ground (arith, same q i);
  size = ground arith;
  flag = ground (arith, test-set (pg base).flags);
}

EndsBelow-AllLt :
    (pg : ℕ → Page) (lo base n : ℕ) (ws zs : List ℕ)
    → Blocks pg lo (ws ++ zs)
    → EndsBelow pg base n ws
    → AllLt base ws
EndsBelow-AllLt pg lo base n [] zs b e = tt
EndsBelow-AllLt pg lo base n (w ∷ ws) zs b e =
    (omega (arith, b.1, e.0), EndsBelow-AllLt pg (w + (pg w).property) base n ws zs b.3 e.1)

-- The first block of an empty list.
insert_block-empty :
    (fuel base : ℕ) (h : Links)
    → Ring h free_list []
    → (g : Links) × (insert_block fuel base h ≡ ok g) × Ring g free_list (page_link base ∷ [])
unfolding insert_block list_empty
insert_block-empty fuel base h r =
    let empty : (h.next free_list == free_list) ≡ true = ground (arith, r.chain.0) in
    (
      list_add free_list (page_link base) h,
      rw empty refl,
      list_add-Ring h (page_link base) [] [] r (ground arith),
    )

-- The search of the list ends in front of the first block above the new one.
insert_block-before :
    (fuel base z : ℕ) (h : Links) (ws zs : List ℕ)
    → Ring h free_list (map page_link (ws ++ z ∷ zs))
    → AllLt base ws
    → has base (ws ++ z ∷ zs) ≡ false
    → base < z
    → length ws + 1 < fuel
    → (g : Links) × (insert_block fuel base h ≡ ok g)
      × Ring g free_list (map page_link (ws ++ base ∷ z ∷ zs))
unfolding insert_block
insert_block-before fuel base z h ws zs r a new l f =
    let wl = map page_link ws in
    let zl = map page_link (z ∷ zs) in
    let r' : Ring h free_list (wl ++ zl) = rw map-append at r in
    let filled = not_empty fuel base z h ws zs r in
    let new' : has (page_link base) (map page_link (ws ++ z ∷ zs)) ≡ false =
      has-map-suc base (ws ++ z ∷ zs) ∙ new in
    let fresh : has (page_link base) (free_list ∷ wl ++ zl) ≡ false =
      ground (arith, (rw map-append at new')) in
    (
      list_add_before (page_link z) (page_link base) h,
      rw filled (insert_loop-before fuel base free_list z h ws zs r.chain a l f),
      rw map-append (list_add_before-Ring h (page_link base) wl zl r' fresh),
    )
  where
    not_empty :
        (fuel base z : ℕ) (h : Links) (ws zs : List ℕ)
        → Ring h free_list (map page_link (ws ++ z ∷ zs))
        → list_empty free_list h ≡ false
    not_empty fuel base z h [] zs r = unfold list_empty in ground (arith, r.chain.0.0)
    not_empty fuel base z h (w ∷ ws) zs r = unfold list_empty in ground (arith, r.chain.0.0)

pub add_block-links :
    (base n : ℕ) (s : Pmm) (pg : ℕ → Page)
    → (add_block base n (record s { page = pg })).links ≡ s.links
unfolding add_block
add_block-links base n s pg = refl

-- No block of the list stands behind `base`.
abbrev pub LastAbove : ℕ → List ℕ → Type 0
LastAbove base [] = Unit
LastAbove base (x ∷ xs) = base < last x xs

AllLt-last : (base w : ℕ) (ws : List ℕ) → AllLt base (w ∷ ws) → last w ws < base
AllLt-last base w [] a = a.0
AllLt-last base w (v ∷ ws) a = AllLt-last base v ws a.1

AllLt-has : (base : ℕ) (ws : List ℕ) → AllLt base ws → has base ws ≡ false
AllLt-has base [] a = refl
AllLt-has base (w ∷ ws) a = ground (arith, AllLt-has base ws a.1)

StartsAbove-has :
    (pg : ℕ → Page) (base n : ℕ) (zs : List ℕ)
    → 0 < n
    → StartsAbove pg base n zs
    → has base zs ≡ false
StartsAbove-has pg base n [] p h = refl
StartsAbove-has pg base n (z ∷ zs) p h = ground (arith, StartsAbove-has pg base n zs p h.1)

-- The block is linked in at its place.
insert_block-gap :
    (fuel base n : ℕ) (pg : ℕ → Page) (h : Links) (ws zs : List ℕ)
    → Ring h free_list (map page_link (ws ++ zs))
    → Blocks pg 0 (ws ++ zs)
    → EndsBelow pg base n ws
    → StartsAbove pg base n zs
    → LastAbove base (ws ++ zs)
    → 0 < n
    → length (ws ++ zs) + 1 < fuel
    → (g : Links) × (insert_block fuel base h ≡ ok g)
      × Ring g free_list (map page_link (ws ++ base ∷ zs))
insert_block-gap fuel base n pg h [] [] r b l a e p f = insert_block-empty fuel base h r
insert_block-gap fuel base n pg h (w ∷ ws) [] r b l a e p f =
    absurd (behind w ws e (EndsBelow-AllLt pg 0 base n (w ∷ ws) [] b l))
  where
    behind : (w : ℕ) (ws : List ℕ) → LastAbove base ((w ∷ ws) ++ []) → AllLt base (w ∷ ws) → ⊥
    behind w [] e a = omega (arith, e, a.0)
    behind w (v ∷ ws) e a = behind v ws e a.1
insert_block-gap fuel base n pg h ws (z ∷ zs) r b l a e p f =
    let low = EndsBelow-AllLt pg 0 base n ws (z ∷ zs) b l in
    insert_block-before fuel base z h ws zs r low
      (ground (
        arith,
        has-append base ws (z ∷ zs),
        AllLt-has base ws low,
        StartsAbove-has pg base n (z ∷ zs) p a,
      ))
      (omega (arith, a.0)) (omega (arith, length-append ws (z ∷ zs)))

-- What a call that gives the `n` pages from `base` on comes to: these pages are free now, beside
-- those that were.
pub record Frees (s t : Pmm) (xs : List ℕ) (base n : ℕ) : Type 0 where
  pub after : List ℕ
  pub valid : FreeList t after
  pub count : t.nr_free ≡ s.nr_free + n
  pub frees : (q : ℕ) → covered t.page after q ≡ (covered s.page xs q || in_range base n q)

-- The state once the block is linked in, before any merge.
record Linked (fuel base n : ℕ) (s : Pmm) (xs : List ℕ) (pg : ℕ → Page) : Type 0 where
  links : Links
  front : List ℕ
  back : List ℕ
  run : insert_block fuel base s.links ≡ ok links
  valid :
      FreeList
        (record (add_block base n (record s { page = pg })) { links = links })
        (front ++ base ∷ back)
  count : (add_block base n (record s { page = pg })).nr_free ≡ s.nr_free + n
  frees :
      (q : ℕ)
      → covered (add_block base n (record s { page = pg })).page (front ++ base ∷ back) q
        ≡ (covered s.page xs q || in_range base n q)

link_block :
    (fuel base n : ℕ) (s : Pmm) (xs : List ℕ) (pg : ℕ → Page)
    → 0 < n
    → FreeList s xs
    → ((q : ℕ) → in_range base n q ≡ false → pg q ≡ s.page q)
    → ((q : ℕ) → in_range base n q ≡ true → covered s.page xs q ≡ false)
    → s.nr_free + n < 2 ^ 32
    → LastAbove base xs
    → length xs + 1 < fuel
    → Linked fuel base n s xs pg
link_block fuel base n s xs pg p l same free small above f =
    let g = find-Gap s.page base n 0 xs l.blocks p free in
    let l' : FreeList s (g.front ++ g.back) = rw g.split at l in
    let (h, linked, ring) =
      insert_block-gap fuel base n s.page s.links g.front g.back l'.ring l'.blocks g.low g.high
        (rw g.split at above) p (rw g.split at f) in
    let t = add_block base n (record s { page = pg }) in
    let a = add_block-Added base n s pg p (omega arith) same in
    let nr : t.nr_free ≡ s.nr_free + n = unfold add_block in ground arith in
    record {
      links = h;
      front = g.front;
      back = g.back;
      run = linked;
      valid = record {
        ring = ring;
        blocks = Added-Blocks a 0 g.front g.back l'.blocks g.low g.high (omega arith);
        counted =
            omega (arith, nr, l'.counted, Added-total a 0 g.front g.back l'.blocks g.low g.high);
        small = omega (arith, nr);
      };
      count = nr;
      frees = λ q.
          Added-covered a 0 q g.front g.back l'.blocks g.low g.high
          ∙ ap (λ (k : List ℕ). covered s.page k q || in_range base n q) (sym g.split);
    }

-- The `n` pages from `base` on, none of which is reserved, heads a free block or is free already,
-- are given back. If the list has a block above them or none at all, and with fuel for one round
-- more than it has blocks, `default_free_pages` returns: the list is well formed, its blocks hold
-- exactly the pages that were free and those given back, and the counter has risen by `n`. The range
-- is merged with its neighbours: no block ends where it begins, and none begins where it ends.
pub default_free_pages-Frees :
    (fuel base n : ℕ) (s : Pmm) (xs : List ℕ)
    → 0 < n
    → FreeList s xs
    → ((q : ℕ) → in_range base n q ≡ true → IsUsed (s.page q))
    → ((q : ℕ) → in_range base n q ≡ true → covered s.page xs q ≡ false)
    → s.nr_free + n < 2 ^ 32
    → LastAbove base xs
    → length xs + 1 < fuel
    → (t : Pmm) × (default_free_pages fuel base n s ≡ ok t)
      × (f : Frees s t xs base n) × NoneEnds t.page base f.after
      × NoneBegins (base + n) f.after
unfolding default_free_pages
default_free_pages-Frees fuel base n s xs p l used free small above f =
    let (pg, reset, same) = reset_pages-ok base n s.page used in
    let k = link_block fuel base n s xs pg p l same free small above f in
    let u = record (add_block base n (record s { page = pg })) { links = k.links } in
    let (ys, m, ends, begins) = merge_both-Merged u base k.front k.back k.valid in
    let size : (u.page base).property ≡ n =
      (add_block-Added base n s pg p (omega (arith, small)) same).size in
    let pos' : (n == 0) ≡ false = ground arith in
    (
      merge_both base u,
      rw (pos', reset) (rw (add_block-links base n s pg, k.run) refl),
      record {
        after = ys;
        valid = m.valid;
        count = m.count ∙ k.count;
        frees = λ q. m.frees q ∙ k.frees q;
      },
      ends,
      λ v i e. begins v i (ground (arith, e, size)),
    )

init_pages-ok :
    (base n : ℕ) (pg : ℕ → Page)
    → ((q : ℕ) → in_range base n q ≡ true → page_reserved (pg q) ≡ true)
    → (pg' : ℕ → Page) × (init_pages base n pg ≡ ok pg')
      × ((q : ℕ) → in_range base n q ≡ false → pg' q ≡ pg q)
unfolding init_pages
init_pages-ok base zero pg u = (pg, refl, λ q i. refl)
init_pages-ok base (suc n) pg u =
    let next = update pg base (record { ref = 0; flags = 0; property = 0 }) in
    let (pg', run, same) =
      init_pages-ok (suc base) n next (λ q i. ground (arith, u q (ground arith))) in
    (pg', rw (u base (ground arith)) run, λ q i. ground (arith, same q))

-- The `n` pages from `base` on, all of them reserved and none free already, become a block. If the
-- list has a block above them or none at all, and with fuel for one round more than it has blocks,
-- `default_init_memmap` returns: the list is well formed, its blocks hold exactly the pages that
-- were free and the new ones, and the counter has risen by `n`.
pub default_init_memmap-Frees :
    (fuel base n : ℕ) (s : Pmm) (xs : List ℕ)
    → 0 < n
    → FreeList s xs
    → ((q : ℕ) → in_range base n q ≡ true → page_reserved (s.page q) ≡ true)
    → ((q : ℕ) → in_range base n q ≡ true → covered s.page xs q ≡ false)
    → s.nr_free + n < 2 ^ 32
    → LastAbove base xs
    → length xs + 1 < fuel
    → (t : Pmm) × (default_init_memmap fuel base n s ≡ ok t) × Frees s t xs base n
unfolding default_init_memmap
default_init_memmap-Frees fuel base n s xs p l used free small above f =
    let (pg, reset, same) = init_pages-ok base n s.page used in
    let k = link_block fuel base n s xs pg p l same free small above f in
    let u = record (add_block base n (record s { page = pg })) { links = k.links } in
    let pos' : (n == 0) ≡ false = ground arith in
    (
      u,
      rw (pos', reset) (rw (add_block-links base n s pg, k.run) refl),
      record {
        after = k.front ++ base ∷ k.back;
        valid = k.valid;
        count = k.count;
        frees = k.frees;
      },
    )
