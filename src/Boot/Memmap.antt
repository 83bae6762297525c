-- ===== src/Boot/Memmap.antt =====
-- `init_memmap` of kern/mm/pmm.c on an empty free list, and the pages that it leaves alone.
use os_lab.Base.{
  bind-ok, ℕ, zero, suc, ◌+◌, ◌^◌, ◌<◌, ◌≡◌, refl, sym, ap, ◌∙◌, List, [], true, false, Run, ok,
  panic, spin, fault, ◌==◌, ◌>>=◌, arith, Bool-cases, inl, inr,
}
use os_lab.Links.{update}
use os_lab.Links.Ring.{list_init-Ring}
use os_lab.Pmm.{
  Page, Pmm, page_reserved, default_init, init_pages, insert_block, add_block, default_init_memmap,
}
use os_lab.Pmm.Blocks.{FreeList, in_range, covered, total}
use os_lab.Pmm.Free.{default_init_memmap-Frees}
use os_lab.Boot.{Boot, put_pmm, init_memmap, nr_free_pages}

pub default_init-FreeList :
    (s : Pmm) (pg : ℕ → Page) → FreeList (record (default_init s) { page = pg }) []
unfolding default_init total
default_init-FreeList s pg = record {
  ring = list_init-Ring s.links 0;
  blocks = tt;
  counted = refl;
  small = omega arith;
}

init_pages-frame :
    (base n : ℕ) (pg pg' : ℕ → Page) (q : ℕ)
    → init_pages base n pg ≡ ok pg'
    → in_range base n q ≡ false
    → pg' q ≡ pg q
unfolding init_pages
init_pages-frame base zero pg pg' q e o = cc
init_pages-frame base (suc n) pg pg' q e o =
    let next = update pg base (record { ref = 0; flags = 0; property = 0 }) in
    elim (Bool-cases (page_reserved (pg base))) [
      | inl u ↦
          ground
            (arith, init_pages-frame (suc base) n next pg' q (ground (arith, e, u)) (ground arith))
      | inr u ↦ absurd (ground (arith, e, u))
    ]

-- The `n` pages from `base` on are what `c` has free, and it was all reserved before.
pub record HasFree (base n : ℕ) (c : Boot) : Type 0 where
  pub blocks : List ℕ
  pub valid : FreeList c.vm.pmm blocks
  pub count : nr_free_pages c ≡ n
  pub frees : (q : ℕ) → covered c.vm.pmm.page blocks q ≡ in_range base n q

abbrev pages_of : Pmm → Run Pmm → ℕ → Page
pages_of s (ok t) = t.page
pages_of s panic = s.page
pages_of s spin = s.page
pages_of s fault = s.page

add_block-other :
    (base n q : ℕ) (pg : ℕ → Page) (s : Pmm)
    → q < base
    → (add_block base n (record s { page = pg })).page q ≡ pg q
unfolding add_block
add_block-other base n q pg s o = ground arith

init_memmap-frame :
    (fuel base n : ℕ) (s t : Pmm) (q : ℕ)
    → default_init_memmap fuel base n s ≡ ok t
    → q < base
    → page_reserved (t.page q) ≡ page_reserved (s.page q)
unfolding default_init_memmap
init_memmap-frame fuel base n s t q e o = elim (Bool-cases (n == 0)) [
  | inl z ↦ absurd (ground (arith, e, z))
  | inr z ↦
      let added = λ (pg : ℕ → Page). add_block base n (record s { page = pg }) in
      let link = λ (pg : ℕ → Page).
        insert_block fuel base (added pg).links >>= λ l. ok (record (added pg) { links = l }) in
      let (pg, run, e1) = bind-ok (init_pages base n s.page) link t (ground (arith, e, z)) in
      let (l, linked, e2) =
        bind-ok (insert_block fuel base (added pg).links)
          (λ l. ok (record (added pg) { links = l })) t e1 in
      let same : pg q ≡ s.page q = init_pages-frame base n s.page pg q run (ground arith) in
      let kept : (added pg).page q ≡ t.page q = ap (λ (r : Run Pmm). pages_of s r q) e2 in
      ap page_reserved (sym kept ∙ add_block-other base n q pg s o ∙ same)
]

pub init_memmap-HasFree :
    (fuel base n : ℕ) (c : Boot)
    → 0 < n
    → FreeList c.vm.pmm []
    → ((q : ℕ) → q < base + n → page_reserved (c.vm.pmm.page q) ≡ true)
    → n < 2 ^ 32
    → 1 < fuel
    → (p : Pmm) × (init_memmap fuel base n c ≡ ok (put_pmm p c))
      × HasFree base n (put_pmm p c)
      × ((q : ℕ) → q < base → page_reserved (p.page q) ≡ true)
unfolding init_memmap nr_free_pages total covered
init_memmap-HasFree fuel base n c pos l all small f =
    let none_free : c.vm.pmm.nr_free ≡ 0 = l.counted in
    let (p, run, fr) =
      default_init_memmap-Frees fuel base n c.vm.pmm [] pos l (λ q i. all q (ground arith))
        (λ q i. refl) (omega (arith, none_free)) tt f in
    (
      p,
      rw run refl,
      record {
        blocks = fr.after;
        valid = fr.valid;
        count = omega (arith, fr.count, none_free);
        frees = fr.frees;
      },
      λ q b. init_memmap-frame fuel base n c.vm.pmm p q run b ∙ all q (omega arith),
    )
