-- ===== src/Pmm/Alloc.antt =====
-- `default_alloc_pages` of kern/mm/default_pmm.c against the sequence of free blocks.
use mathlib.Core.List.{map-append}
use os_lab.Base.{
  has-map-suc, ℕ, zero, suc, ◌+◌, ◌≤◌, ◌<◌, ◌^◌, ◌≡◌, refl, ap, ◌∙◌, true, false, ◌&&◌, ◌||◌, inl,
  inr, List, [], ◌∷◌, ◌++◌, map, Option, none, some, leb, ltb, ◌==◌, has, arith, Bool-cases,
  Option-cases, length, ok,
}
use os_lab.Links.{list_del}
use os_lab.Links.Chain.{Chain, Ring, last}
use os_lab.Links.Ring.{Chain-cut, list_del-Ring, list_add-Ring}
use os_lab.Atomic.Laws.{test-set}
use os_lab.Pmm.{
  Page, Pmm, page_property, free_list, page_link, find_fit, split_block, take_block,
  default_alloc_pages, set_page_property,
}
use os_lab.Pmm.Blocks.{AllSmall, Blocks-gap, in_range, covered, total, first_fit, FreeList}
use os_lab.Pmm.Take.{rest, Taken, Taken-Blocks, Taken-covered, Taken-total}

-- The walk of the pointer code is the search of the sequence.
find_fit-first_fit :
    (fuel n le : ℕ) (s : Pmm) (xs : List ℕ)
    → Chain s.links le (map page_link xs) free_list
    → length xs < fuel
    → find_fit fuel n le s ≡ ok (first_fit s.page n xs)
unfolding find_fit first_fit
find_fit-first_fit zero n le s xs c f = absurd (omega arith)
find_fit-first_fit (suc fuel) n le s [] c f = ground arith
find_fit-first_fit (suc fuel) n le s (x ∷ xs) c f =
    ground (arith, find_fit-first_fit fuel n (suc x) s xs c.1)

-- What the search finds: the blocks in front of it are too small.
record Found (pg : ℕ → Page) (n x : ℕ) (xs : List ℕ) : Type 0 where
  front : List ℕ
  back : List ℕ
  split : xs ≡ front ++ x ∷ back
  lowest : AllSmall pg n front
  fits : n ≤ (pg x).property

first_fit-Found :
    (pg : ℕ → Page) (n : ℕ) (xs : List ℕ) {x : ℕ} → first_fit pg n xs ≡ some x → Found pg n x xs
unfolding first_fit
first_fit-Found pg n [] e = absurd (ground arith)
first_fit-Found pg n (y ∷ xs) {x} e = elim (Bool-cases (leb n (pg y).property)) [
  | inl fits ↦ record {
    front = [];
    back = xs;
    split = ground arith;
    lowest = tt;
    fits = ground arith;
  }
  | inr small ↦
      let f = first_fit-Found pg n xs {x = x} (ground arith) in
      record {
        front = y ∷ f.front;
        back = f.back;
        split = ap (λ l. y ∷ l) f.split;
        lowest = (ground arith, f.lowest);
        fits = f.fits;
      }
]

first_fit-none : (pg : ℕ → Page) (n : ℕ) (xs : List ℕ) → first_fit pg n xs ≡ none → AllSmall pg n xs
unfolding first_fit
first_fit-none pg n [] e = tt
first_fit-none pg n (y ∷ xs) e = elim (Bool-cases (leb n (pg y).property)) [
  | inl fits ↦ absurd (ground arith)
  | inr small ↦ (ground arith, first_fit-none pg n xs (ground arith))
]

-- Fewer free pages than asked for: no block can be large enough.
AllSmall-total : (pg : ℕ → Page) (n : ℕ) (xs : List ℕ) → total pg xs < n → AllSmall pg n xs
unfolding total
AllSmall-total pg n [] h = tt
AllSmall-total pg n (y ∷ xs) h = (omega arith, AllSmall-total pg n xs (omega arith))

total-mid : (pg : ℕ → Page) (x : ℕ) (ys zs : List ℕ) → (pg x).property ≤ total pg (ys ++ x ∷ zs)
unfolding total
total-mid pg x [] zs = omega arith
total-mid pg x (y ∷ ys) zs = omega (arith, total-mid pg x ys zs)

covered-mid :
    (pg : ℕ → Page) (x q : ℕ) (ys zs : List ℕ)
    → in_range x (pg x).property q ≡ true
    → covered pg (ys ++ x ∷ zs) q ≡ true
unfolding covered
covered-mid pg x q [] zs h = ground arith
covered-mid pg x q (y ∷ ys) zs h = ground (arith, covered-mid pg x q ys zs)

module _ (n x : ℕ) (s : Pmm) where
  take_block-Taken : 0 < n → n ≤ (s.page x).property → Taken s.page (take_block n x s).page x n
  unfolding take_block split_block set_page_property page_property
  take_block-Taken pos fits = record {
    pos = pos;
    fits = fits;
    same = λ u a b. ground arith;
    whole = λ e. ground arith;
    tail = λ l. ground (arith, test-set (s.page (x + n)).flags);
  }

  take_block-Ring :
      (ys zs : List ℕ)
      → FreeList s (ys ++ x ∷ zs)
      → 0 < n
      → Ring (take_block n x s).links free_list (map page_link (ys ++ rest s.page x n zs))
  unfolding take_block split_block
  take_block-Ring ys zs l pos =
      let yl = map page_link ys in
      let zl = map page_link zs in
      let r : Ring s.links free_list (yl ++ page_link x ∷ zl) = rw map-append at l.ring in
      let back : s.links.prev (suc x) ≡ last free_list yl =
        (Chain-cut s.links free_list free_list yl (page_link x ∷ zl) r.chain).1 in
      let out = list_del-Ring s.links (page_link x) yl zl r in
      elim (Bool-cases (ltb n (s.page x).property)) [
        | inl less ↦
            let gap : has (x + n) (ys ++ zs) ≡ false =
              Blocks-gap s.page 0 x (x + n) ys zs l.blocks (omega arith) (ground arith) in
            let gap' : has (suc (x + n)) (map page_link (ys ++ zs)) ≡ false =
              has-map-suc (x + n) (ys ++ zs) ∙ gap in
            let fresh : has (suc (x + n)) (free_list ∷ yl ++ zl) ≡ false =
              ground (arith, (rw map-append at gap')) in
            rw (less, back, map-append)
              (list_add-Ring (list_del (page_link x) s.links) (page_link (x + n)) yl zl out fresh)
        | inr all ↦ rw (all, map-append) out
      ]

  take_block-nr_free :
      n ≤ (s.page x).property
      → s.nr_free < 2 ^ 32
      → n ≤ s.nr_free
      → (take_block n x s).nr_free + n ≡ s.nr_free
  unfolding take_block split_block
  take_block-nr_free fits small le = ground arith

-- The pages from `x` on are handed out: block `x` was the first one of at least `n` pages, and the
-- free pages before the call are those after it and, apart from them, the `n` pages from `x` on.
pub record Gets (s t : Pmm) (xs : List ℕ) (n x : ℕ) : Type 0 where
  pub front : List ℕ
  pub back : List ℕ
  pub after : List ℕ
  pub split : xs ≡ front ++ x ∷ back
  pub lowest : AllSmall s.page n front
  pub fits : n ≤ (s.page x).property
  pub valid : FreeList t after
  pub count : t.nr_free + n ≡ s.nr_free
  pub frees : (q : ℕ) → covered s.page xs q ≡ (covered t.page after q || in_range x n q)
  pub apart : (q : ℕ) → (covered t.page after q && in_range x n q) ≡ false

-- The outcome of a call.
abbrev pub Allocates : Pmm → List ℕ → ℕ → Option ℕ × Pmm → Type 0
Allocates s xs n (none, t) = (t ≡ s) × AllSmall s.page n xs
Allocates s xs n (some x, t) = Gets s t xs n x

take_block-Gets :
    (n x : ℕ) (s : Pmm) (xs : List ℕ)
    → 0 < n
    → FreeList s xs
    → Found s.page n x xs
    → Gets s (take_block n x s) xs n x
take_block-Gets n x s xs pos l f =
    let l' : FreeList s (f.front ++ x ∷ f.back) = rw f.split at l in
    let t = take_block-Taken n x s pos f.fits in
    let enough : n ≤ s.nr_free =
      omega (arith, l'.counted, f.fits, total-mid s.page x f.front f.back) in
    let count = take_block-nr_free n x s f.fits l'.small enough in
    let cover = λ (q : ℕ). Taken-covered t 0 q f.front f.back l'.blocks in
    record {
      front = f.front;
      back = f.back;
      after = f.front ++ rest s.page x n f.back;
      split = f.split;
      lowest = f.lowest;
      fits = f.fits;
      valid = record {
        ring = take_block-Ring n x s f.front f.back l' pos;
        blocks = Taken-Blocks t 0 f.front f.back l'.blocks;
        counted = omega (arith, count, l'.counted, Taken-total t 0 f.front f.back l'.blocks);
        small = omega (arith, count, l'.small);
      };
      count = count;
      frees =
          λ q. rw f.split (ground (arith, cover q, f.fits, covered-mid s.page x q f.front f.back));
      apart = λ q. ground (arith, cover q);
    }

-- For a request of at least one page the call returns, with fuel above the number of blocks: it
-- hands out the first block that is large enough, or changes nothing where there is none.
pub default_alloc_pages-Allocates :
    (fuel n : ℕ) (s : Pmm) (xs : List ℕ)
    → 0 < n
    → FreeList s xs
    → length xs < fuel
    → (r : Option ℕ × Pmm) × (default_alloc_pages fuel n s ≡ ok r) × Allocates s xs n r
unfolding default_alloc_pages
default_alloc_pages-Allocates fuel n s xs pos l f =
    let walk = find_fit-first_fit fuel n free_list s xs l.ring.chain f in
    let pos' : (n == 0) ≡ false = ground arith in
    elim (Bool-cases (ltb s.nr_free n)) [
      | inl few ↦ (
        (none, s),
        rw (pos', few),
        (refl, AllSmall-total s.page n xs (ground (arith, l.counted))),
      )
      | inr enough ↦ elim (Option-cases (first_fit s.page n xs)) [
        | inl e ↦ ((none, s), rw (pos', enough, walk, e), (refl, first_fit-none s.page n xs e))
        | inr (x, e) ↦ (
          (some x, take_block n x s),
          rw (pos', enough, walk, e),
          take_block-Gets n x s xs pos l (first_fit-Found s.page n xs e),
        )
      ]
    ]
