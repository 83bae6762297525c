-- ===== src/Boot/Memory.antt =====
-- What `page_init` of kern/mm/pmm.c leaves to the page allocator.
use os_lab.Base.{
  ℕ, zero, suc, ◌+◌, ◌-◌, ◌*◌, ◌/◌, ◌%◌, ◌^◌, ◌<◌, ◌≤◌, ◌≡◌, refl, ap, ◌∙◌, true, false, ok, ltb,
  leb, ◌==◌, if◌then◌else◌, arith,
}
use os_lab.Atomic.{set_bit}
use os_lab.Links.{update}
use os_lab.Pmm.{Page, page_reserved, default_init}
use os_lab.Pmm.Blocks.{in_range}
use os_lab.Paging.{nbase, pa2page, ppn}
use os_lab.Dtb.{Dtb, get_memory_base, get_memory_size, physical_memory_offset}
use os_lab.Boot.Memmap.{HasFree, default_init-FreeList, init_memmap-HasFree}
use os_lab.Boot.{
  Boot, kernbase, kerntop, rounddown, roundup, paddr, page_bytes, put_pmm, init_pmm_manager,
  init_memmap, set_page_reserved, reserve_pages, free_memory, page_init,
}

set_page_reserved_lem : (p : Page) → page_reserved (set_page_reserved p) ≡ true
unfolding page_reserved set_page_reserved set_bit
set_page_reserved_lem p = ground arith

reserve_pages-reserved :
    (i n : ℕ) (pg : ℕ → Page) (q : ℕ)
    → page_reserved (reserve_pages i n pg q)
      ≡ (if in_range i n q then true else page_reserved (pg q))
unfolding reserve_pages
reserve_pages-reserved i zero pg q = ground arith
reserve_pages-reserved i (suc n) pg q = ground (
  arith,
  set_page_reserved_lem (pg i),
  reserve_pages-reserved (suc i) n (update pg i (set_page_reserved (pg i))) q,
)

-- The pages that the array itself takes up, and what lies below them, end at this physical address.
abbrev pub array_end : ℕ → ℕ → ℕ
array_end end npage = (end + 4095) / 2 ^ 12 * 2 ^ 12 + 64 * (npage - nbase) - physical_memory_offset

-- The first page behind the array.
abbrev pub first_page : ℕ → ℕ → ℕ
first_page end npage = (array_end end npage + 4095) / 2 ^ 12

-- The memory lies in what the kernel maps, and has a page behind the array of pages.
pub record Fits (end : ℕ) (d : Dtb) : Type 0 where
  pub some_memory : 0 < d.memory_size
  pub image : kernbase ≤ end
  pub mapped : d.memory_base + d.memory_size ≤ 0xc0000000
  pub room :
      first_page end ((d.memory_base + d.memory_size) / 2 ^ 12)
      < (d.memory_base + d.memory_size) / 2 ^ 12

module _ (end npage : ℕ) (i : kernbase ≤ end) (l : npage ≤ 0xc0000)
    (r : first_page end npage < npage) where
  roundup-end : roundup end ≡ (end + 4095) / 2 ^ 12 * 2 ^ 12
  unfolding roundup rounddown
  roundup-end = omega arith

  count_lem : (npage + 2 ^ 64 - nbase) % 2 ^ 64 ≡ npage - nbase
  count_lem = omega arith

  paddr-array_end :
      paddr physical_memory_offset ((roundup end + page_bytes * (npage - nbase)) % 2 ^ 64)
      ≡ ok (array_end end npage)
  unfolding paddr
  paddr-array_end =
      let a = array_end end npage in
      let kva : (roundup end + page_bytes * (npage - nbase)) % 2 ^ 64 ≡ a + physical_memory_offset =
        rw roundup-end (omega arith) in
      let high : ltb (a + physical_memory_offset) kernbase ≡ false = ground arith in
      let back : (a + physical_memory_offset + 2 ^ 64 - physical_memory_offset) % 2 ^ 64 ≡ a =
        omega arith in
      rw (kva, high) (ap ok back)

module _ (fuel freemem mem_end first : ℕ) (b : Boot) (f : first ≡ (freemem + 4095) / 2 ^ 12)
    (n : b.vm.npage ≡ mem_end / 2 ^ 12) (bound : mem_end ≤ 0xc0000000) (r : first < b.vm.npage)
    (low : nbase ≤ first) where
  free_memory-init_memmap :
      free_memory fuel freemem mem_end b ≡ init_memmap fuel (first - nbase) (b.vm.npage - first) b
  unfolding free_memory roundup rounddown pa2page ppn
  free_memory-init_memmap =
      let down : mem_end - mem_end % 2 ^ 12 ≡ b.vm.npage * 2 ^ 12 = omega (arith, n) in
      let up : (freemem + 4096 - 1) % 2 ^ 64 - (freemem + 4096 - 1) % 2 ^ 64 % 2 ^ 12
          ≡ first * 2 ^ 12 =
        omega (arith, f, r, n) in
      let test : ltb freemem (b.vm.npage * 2 ^ 12) ≡ true = ground (arith, f, r) in
      let page : first * 2 ^ 12 / 2 ^ 12 ≡ first = omega arith in
      let inside : leb b.vm.npage first ≡ false = ground (arith, r) in
      let size : (b.vm.npage * 2 ^ 12 + 2 ^ 64 - first * 2 ^ 12) % 2 ^ 64 / 2 ^ 12
          ≡ b.vm.npage - first =
        omega (arith, r, n) in
      let index : (first + 2 ^ 64 - nbase) % 2 ^ 64 ≡ first - nbase = omega (arith, r, n, low) in
      rw (down, up, test, page, inside, index, size) refl

module _ (fuel end : ℕ) (d : Dtb) (b : Boot) (h : Fits end d) where
  -- The state of `page_init` once all pages are reserved.
  abbrev reserved : Boot
  reserved =
      let npage = (d.memory_base + d.memory_size) / 2 ^ 12 in
      record {
        vm = record b.vm {
          npage = npage;
          pmm = record (default_init b.vm.pmm) {
            page = reserve_pages 0 (npage - nbase) b.vm.pmm.page;
          };
        };
        pages = roundup end;
        va_pa_offset = physical_memory_offset;
      }

  page_init-free_memory :
      page_init fuel end d (init_pmm_manager b)
      ≡ free_memory fuel
          (array_end end ((d.memory_base + d.memory_size) / 2 ^ 12))
          (d.memory_base + d.memory_size)
          reserved
  unfolding page_init init_pmm_manager get_memory_base get_memory_size default_init
  page_init-free_memory =
      let m = d.memory_base + d.memory_size in
      let npage = m / 2 ^ 12 in
      let l : npage ≤ 0xc0000 = omega (arith, h.mapped) in
      let whole : m % 2 ^ 64 ≡ m = omega (arith, h.mapped) in
      let some_size : (d.memory_size == 0) ≡ false = ground (arith, h.some_memory) in
      let below_top : ltb kerntop m ≡ false = ground (arith, h.mapped) in
      rw
        (
          whole,
          some_size,
          below_top,
          count_lem end npage h.image l h.room,
          paddr-array_end end npage h.image l h.room,
        )
        refl

-- If the memory of the device tree lies in what the kernel maps and reaches over the array of pages by
-- a page at least, `page_init` after `init_pmm_manager` returns, with fuel for two rounds: `npage` is
-- the number of the page where the memory ends, the free pages are exactly the whole pages between
-- the array of pages and that end, and all pages below them stay reserved.
pub page_init-HasFree :
    (fuel end : ℕ) (d : Dtb) (b : Boot)
    → Fits end d
    → 1 < fuel
    → let npage = (d.memory_base + d.memory_size) / 2 ^ 12 in
      let first = first_page end npage in
      (c : Boot) × (page_init fuel end d (init_pmm_manager b) ≡ ok c)
      × (c.vm.npage ≡ npage)
      × HasFree (first - nbase) (npage - first) c
      × ((q : ℕ) → q < first - nbase → page_reserved (c.vm.pmm.page q) ≡ true)
page_init-HasFree fuel end d b h f =
    let npage = (d.memory_base + d.memory_size) / 2 ^ 12 in
    let first = first_page end npage in
    let c = reserved fuel end d b h in
    let low : nbase ≤ first = omega (arith, h.image, h.room) in
    let (p, run, free, kept) =
      init_memmap-HasFree fuel (first - nbase) (npage - first) c (omega (arith, h.room))
        (default_init-FreeList b.vm.pmm c.vm.pmm.page)
        (λ q l.
          ground (arith, low, h.room, reserve_pages-reserved 0 (npage - nbase) b.vm.pmm.page q))
        (omega (arith, h.mapped)) f in
    (
      put_pmm p c,
      page_init-free_memory fuel end d b h
          ∙ free_memory-init_memmap fuel (array_end end npage) (d.memory_base + d.memory_size) first
              c refl refl h.mapped h.room low
          ∙ run,
      refl,
      free,
      kept,
    )
