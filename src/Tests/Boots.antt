-- ===== src/Tests/Boots.antt =====
-- kern/mm/pmm.c at a small memory, of which three pages are left behind the array of pages.
use os_lab.Base.{ℕ, ◌<◌, ◌≡◌, refl, true, ok, ◌>>=◌, arith}
use os_lab.Pmm.{
  page_reserved, default_init_memmap, init_pages, insert_block, add_block, set_page_property,
}
use os_lab.Dtb.{Dtb}
use os_lab.Boot.{Boot, page_init, init_pmm_manager, nr_free_pages, set_page_reserved, init_memmap}
use os_lab.Boot.Memmap.{HasFree}
use os_lab.Boot.Memory.{Fits, page_init-HasFree}

abbrev small_memory : Dtb
small_memory = record { memory_base = 0x80000000; memory_size = 0x20c000 }

abbrev off : Boot
off = record {
  vm = record {
    pmm = record {
      page = λ p. record { ref = 0; flags = 0; property = 0 };
      links = record { next = λ e. 0; prev = λ e. 0 };
      nr_free = 7;
    };
    table = λ t i. 0;
    npage = 0;
  };
  pages = 0;
  va_pa_offset = 0;
}

page_init_test :
    (page_init 2 0xffffffffc0200000 small_memory (init_pmm_manager off) >>= λ c.
    ok (nr_free_pages c))
    ≡ ok 3
unfolding page_init nr_free_pages init_memmap default_init_memmap init_pages insert_block add_block
    set_page_property page_reserved set_page_reserved init_pmm_manager
page_init_test = refl

small_memory-Fits : Fits 0xffffffffc0200000 small_memory
small_memory-Fits = record {
  some_memory = omega arith;
  image = omega arith;
  mapped = omega arith;
  room = omega arith;
}

page_init-HasFree_example :
    (c : Boot) × (page_init 2 0xffffffffc0200000 small_memory (init_pmm_manager off) ≡ ok c)
    × (c.vm.npage ≡ 0x8020c)
    × HasFree 0x209 3 c
    × ((q : ℕ) → q < 0x209 → page_reserved (c.vm.pmm.page q) ≡ true)
page_init-HasFree_example =
    page_init-HasFree 2 0xffffffffc0200000 small_memory off small_memory-Fits (omega arith)
