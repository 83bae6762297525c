-- ===== src/Boot.antt =====
-- kern/mm/pmm.c, the start of memory management: the manager, the array of pages and the free memory
-- behind it. `end` is the address where the kernel's image ends, as the linker sets it, and `fuel` is
-- that of the page allocator. Messages are left out.
pub mod Memmap
pub mod Memory
pub mod Segment
use os_lab.Base.{
  ℕ, zero, suc, ◌+◌, ◌-◌, ◌*◌, ◌/◌, ◌%◌, ◌^◌, Run, ok, panic, ltb, ◌==◌, if◌then◌else◌, ◌>>=◌, ◌>>◌,
}
use os_lab.Links.{update}
use os_lab.Atomic.{set_bit}
use os_lab.Pmm.{Page, Pmm, default_init, default_init_memmap, default_nr_free_pages}
use os_lab.Paging.{Vm, nbase, pa2page}
use os_lab.Dtb.{Dtb, get_memory_base, get_memory_size, physical_memory_offset}

-- `pages` is the address of the array.
pub record Boot : Type 0 where
  pub vm : Vm
  pub pages : ℕ
  pub va_pa_offset : ℕ

abbrev pub kernbase : ℕ
kernbase = 0xffffffffc0200000

abbrev pub kerntop : ℕ
kerntop = 0xffffffffc8000000

-- ROUNDDOWN and ROUNDUP of an address to a multiple of PGSIZE.
unfoldable pub rounddown : ℕ → ℕ
rounddown a = a - a % 2 ^ 12

unfoldable pub roundup : ℕ → ℕ
unfolding rounddown
roundup a = rounddown ((a + 2 ^ 12 - 1) % 2 ^ 64)

unfoldable pub paddr : ℕ → ℕ → Run ℕ
paddr va_pa_offset kva =
    if ltb kva kernbase then panic else ok ((kva + 2 ^ 64 - va_pa_offset) % 2 ^ 64)

-- sizeof(struct Page).
abbrev pub page_bytes : ℕ
page_bytes = 64

abbrev pub put_pmm : Pmm → Boot → Boot
put_pmm p b = record b { vm = record b.vm { pmm = p } }

unfoldable pub init_pmm_manager : Boot → Boot
unfolding default_init
init_pmm_manager b = put_pmm (default_init b.vm.pmm) b

unfoldable pub init_memmap : ℕ → ℕ → ℕ → Boot → Run Boot
init_memmap fuel base n b = default_init_memmap fuel base n b.vm.pmm >>= λ p. ok (put_pmm p b)

unfoldable pub nr_free_pages : Boot → ℕ
unfolding default_nr_free_pages
nr_free_pages b = default_nr_free_pages b.vm.pmm

unfoldable pub set_page_reserved : Page → Page
unfolding set_bit
set_page_reserved p = record p { flags = set_bit 0 p.flags }

-- The loop of `page_init` over the pages from `i` on.
unfoldable pub reserve_pages : ℕ → ℕ → (ℕ → Page) → ℕ → Page
reserve_pages i zero pg = pg
reserve_pages i (suc n) pg = reserve_pages (suc i) n (update pg i (set_page_reserved (pg i)))

-- The end of `page_init`: the pages behind the array become free.
unfoldable pub free_memory : ℕ → ℕ → ℕ → Boot → Run Boot
unfolding roundup rounddown pa2page init_memmap
free_memory fuel freemem end_of_memory b =
    let mem_begin = roundup freemem in
    let mem_end = rounddown end_of_memory in
    if ltb freemem mem_end
    then (pa2page b.vm.npage mem_begin >>= λ page.
        init_memmap fuel page ((mem_end + 2 ^ 64 - mem_begin) % 2 ^ 64 / 2 ^ 12) b)
    else ok b

unfoldable pub page_init : ℕ → ℕ → Dtb → Boot → Run Boot
unfolding get_memory_base get_memory_size roundup paddr reserve_pages free_memory
page_init fuel end d b =
    let mem_begin = get_memory_base d in
    let mem_size = get_memory_size d in
    let mem_end = (mem_begin + mem_size) % 2 ^ 64 in
    let maxpa = if ltb kerntop mem_end then kerntop else mem_end in
    let npage = maxpa / 2 ^ 12 in
    let pages = roundup end in
    let count = (npage + 2 ^ 64 - nbase) % 2 ^ 64 in
    let c : Boot = record {
      vm = record b.vm {
        npage = npage;
        pmm = record b.vm.pmm { page = reserve_pages 0 count b.vm.pmm.page };
      };
      pages = pages;
      va_pa_offset = physical_memory_offset;
    } in
    if mem_size == 0
    then panic
    else (paddr physical_memory_offset ((pages + page_bytes * count) % 2 ^ 64) >>= λ freemem.
        free_memory fuel freemem mem_end c)
