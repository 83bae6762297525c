-- ===== src/Tests/Pages.antt =====
-- kern/mm/default_pmm.c at two free blocks.
use os_lab.Base.{
  ℕ, suc, ◌+◌, ◌≤◌, List, value_or, ◌≡◌, refl, Option, [], ◌∷◌, if◌then◌else◌, ◌==◌, ok, arith,
}
use os_lab.Links.{list_del, list_add}
use os_lab.Pmm.{
  Pmm, Page, take_block, split_block, find_fit, reset_pages, add_block, insert_block,
  clear_page_property, page_property, page_reserved, default_alloc_pages, default_free_pages,
  default_init_memmap,
}
use os_lab.Pmm.Blocks.{FreeList, Blocks, total, covered}
use os_lab.Pmm.Edges.{NoneEnds, NoneBegins}
use os_lab.Pmm.Free.{Frees, LastAbove, default_free_pages-Frees, default_init_memmap-Frees}
use os_lab.Pmm.Safety.{Calls, begin, handed_out, given_back, Shares, Calls-Shares}
use os_lab.Links.Chain.{last}
use os_lab.Pmm.Behind.{default_free_pages-behind}
use os_lab.Pmm.Alloc.{Allocates, default_alloc_pages-Allocates}

-- The blocks are the pages 1 and 2, and the pages 5 to 9.
abbrev two_blocks : Pmm
two_blocks = record {
  page = λ p. record {
    ref = 0;
    flags = if p == 1 then 2 else if p == 5 then 2 else 0;
    property = if p == 1 then 2 else if p == 5 then 5 else 0;
  };
  links = record {
    next = λ e. if e == 0 then 2 else if e == 2 then 6 else 0;
    prev = λ e. if e == 0 then 6 else if e == 6 then 2 else 0;
  };
  nr_free = 7;
}

two_blocks-FreeList : FreeList two_blocks (1 ∷ 5 ∷ [])
unfolding total page_property
two_blocks-FreeList = record {
  ring = record { chain = ground arith; distinct = ground arith };
  blocks = (omega arith, omega arith, refl, (omega arith, omega arith, refl, tt));
  counted = refl;
  small = omega arith;
}

default_alloc_pages-Allocates_example :
    (r : Option ℕ × Pmm) × (default_alloc_pages 3 4 two_blocks ≡ ok r)
    × Allocates two_blocks (1 ∷ 5 ∷ []) 4 r
default_alloc_pages-Allocates_example =
    default_alloc_pages-Allocates 3 4 two_blocks (1 ∷ 5 ∷ []) (omega arith) two_blocks-FreeList
      (omega arith)

-- The pages 3 and 4 are used, and lie between the two blocks.
default_free_pages-Frees_example :
    (t : Pmm) × (default_free_pages 4 3 2 two_blocks ≡ ok t)
    × (f : Frees two_blocks t (1 ∷ 5 ∷ []) 3 2) × NoneEnds t.page 3 f.after
    × NoneBegins 5 f.after
unfolding page_property page_reserved covered
default_free_pages-Frees_example =
    default_free_pages-Frees 4 3 2 two_blocks (1 ∷ 5 ∷ []) (omega arith) two_blocks-FreeList
      (λ q i. ground arith) (λ q i. ground arith) (omega arith) (omega arith) (omega arith)

-- The pages 20 to 22 are behind both blocks.
default_free_pages-behind_example :
    (t : Pmm) × (default_free_pages 4 20 3 two_blocks ≡ ok t)
    × (t.links.prev 21 ≡ 21)
    × ((list_del 21 t.links).next 6 ≡ 21)
unfolding page_property page_reserved
default_free_pages-behind_example =
    default_free_pages-behind 4 20 3 1 two_blocks (5 ∷ []) (omega arith) (omega arith)
      two_blocks-FreeList (λ q i. ground arith) (omega arith) (omega arith)

-- The pages before any are free: all of them are reserved.
abbrev boot : Pmm
boot = record {
  page = λ p. record { ref = 0; flags = 1; property = 0 };
  links = record { next = λ e. 0; prev = λ e. 0 };
  nr_free = 0;
}

boot-FreeList : FreeList boot []
unfolding total
boot-FreeList = record {
  ring = record { chain = (refl, refl); distinct = (refl, tt) };
  blocks = tt;
  counted = refl;
  small = omega arith;
}

default_init_memmap-Frees_example :
    (t : Pmm) × (default_init_memmap 2 4 8 boot ≡ ok t) × Frees boot t [] 4 8
unfolding page_reserved covered
default_init_memmap-Frees_example =
    default_init_memmap-Frees 2 4 8 boot [] (omega arith) boot-FreeList (λ q i. refl) (λ q i. refl)
      (omega arith) tt (omega arith)

-- Page 1 is handed out and given back.
abbrev one_out : Pmm
one_out = take_block 1 1 two_blocks

abbrev one_back : Pmm
one_back = value_or one_out (default_free_pages 20 1 1 one_out)

first-last : (pg : ℕ → Page) (lo x : ℕ) (ys : List ℕ) → Blocks pg lo (x ∷ ys) → x ≤ last x ys
first-last pg lo x [] b = omega arith
first-last pg lo x (y ∷ ys) b = omega (arith, b.3.0, first-last pg (x + (pg x).property) y ys b.3)

one_out-LastAbove : (xs : List ℕ) → FreeList one_out xs → LastAbove 1 xs
unfolding take_block split_block list_add list_del
one_out-LastAbove [] l = tt
one_out-LastAbove (x ∷ ys) l =
    let at : 3 ≡ suc x = l.ring.chain.0.0 in
    omega (arith, at, first-last one_out.page 0 x ys l.blocks)

out_and_back : Calls 20 two_blocks one_back []
unfolding default_alloc_pages find_fit take_block split_block default_free_pages reset_pages
    page_reserved clear_page_property page_property insert_block add_block list_add
out_and_back =
    given_back 1 1 one_out one_back [] [] ((1, 1) ∷ [])
      (handed_out 1 1 two_blocks one_out [] begin (omega arith) refl) refl (omega arith)
      one_out-LastAbove refl

Calls-Shares_example : Shares two_blocks (1 ∷ 5 ∷ []) one_back []
Calls-Shares_example =
    Calls-Shares 20 two_blocks (1 ∷ 5 ∷ []) one_back [] two_blocks-FreeList out_and_back
