-- ===== src/Tests/Tables.antt =====
-- kern/mm/pmm.c at three tables, the pages 10, 11 and 12, in which the address 0x1000 maps page 3.
use os_lab.Base.{
  codes, ℕ, ◌+◌, ◌*◌, ◌%◌, ◌^◌, ◌≡◌, ◌≢◌, refl, inl, true, false, none, some, [], ◌∷◌,
  if◌then◌else◌, ◌==◌, ok, pos, arith,
}
use os_lab.Pmm.{Pmm, page_property}
use os_lab.Pmm.Blocks.{FreeList, total, covered}
use os_lab.Paging.{
  Vm, pdx1, pdx0, ptx, pte_addr, is_valid, pte_create, pte2page, page2ppn, kaddr, get_pte, get_page,
  next_table, page_insert, page_remove,
}
use os_lab.Paging.Address.{pte2page-pte_create}
use os_lab.Paging.Items.{get_pgtable_items, perm2str}
use os_lab.Boot.Segment.{boot_map_segment, Region, Mapped, boot_map_segment-Mapped}
use os_lab.Paging.Walk.{Leads, Created, get_pte-missing, next_table-Created}
use os_lab.Paging.Insert.{
  Tables, IsPage, ref_of, page_insert-fresh, page_insert-replaces, page_remove-unmaps,
}

-- The free blocks are the pages 1 and 2, and the pages 5 to 9; page 3 is mapped twice.
abbrev free_pages : Pmm
free_pages = record {
  page = λ p. record {
    ref = if p == 3 then 2 else 0;
    flags = if p == 1 then 2 else if p == 5 then 2 else 0;
    property = if p == 1 then 2 else if p == 5 then 5 else 0;
  };
  links = record {
    next = λ e. if e == 0 then 2 else if e == 2 then 6 else 0;
    prev = λ e. if e == 0 then 6 else if e == 6 then 2 else 0;
  };
  nr_free = 7;
}

free_pages-FreeList : FreeList free_pages (1 ∷ 5 ∷ [])
unfolding total page_property
free_pages-FreeList = record {
  ring = record { chain = ground arith; distinct = ground arith };
  blocks = (omega arith, omega arith, refl, (omega arith, omega arith, refl, tt));
  counted = refl;
  small = omega arith;
}

abbrev tables : Vm
tables = record {
  pmm = free_pages;
  table = λ t i.
      if t == 0x8000a
      then (if i == 0 then 0x8000b * 1024 + 17 else 0)
      else if t == 0x8000b
      then (if i == 0 then 0x8000c * 1024 + 17 else 0)
      else if i == 1
      then 0x80003 * 1024 + 3
      else 0;
  npage = 0x80020;
}

upper : Leads tables 0x8000a (pdx1 0x1000) 0x8000b
unfolding pdx1 is_valid kaddr pte_addr
upper = record { valid = refl; reach = refl }

lower : Leads tables 0x8000b (pdx0 0x1000) 0x8000c
unfolding pdx0 is_valid kaddr pte_addr
lower = record { valid = refl; reach = refl }

at_1000 : Tables tables 0x8000a 0x1000 0x8000b 0x8000c
at_1000 = record { upper = upper; lower = lower; not_first = omega arith; not_second = omega arith }

at_2000 : Tables tables 0x8000a 0x2000 0x8000b 0x8000c
unfolding pdx1 pdx0 is_valid kaddr pte_addr
at_2000 = record {
  upper = record { valid = refl; reach = refl };
  lower = record { valid = refl; reach = refl };
  not_first = omega arith;
  not_second = omega arith;
}

fourth_IsPage : IsPage tables 4 6
unfolding page2ppn
fourth_IsPage = record { inside = omega arith; limit = omega arith; rights = omega arith }

third_IsPage : IsPage tables 3 6
unfolding page2ppn
third_IsPage = record { inside = omega arith; limit = omega arith; rights = omega arith }

get_pte-missing_test : get_pte 3 0x8000a 0x40000000 false tables ≡ ok (none, tables)
unfolding pdx1 is_valid
get_pte-missing_test = get_pte-missing 3 0x8000a 0x40000000 tables (inl refl)

next_table-Created_example :
    (u : ℕ) × (r : Vm) × (next_table 3 0x8000a 1 true tables ≡ ok (some u, r))
    × Created tables r (1 ∷ 5 ∷ []) 0x8000a 1 u
unfolding is_valid page2ppn covered
next_table-Created_example =
    next_table-Created 3 0x8000a 1 tables (1 ∷ 5 ∷ []) refl free_pages-FreeList (omega arith)
      (λ q i. ground arith) (λ q i. ground arith) (omega arith) (omega arith)

pte2page-pte_create_example :
    (pte2page 0x80020 (pte_create (page2ppn 3) 6) ≡ ok 3)
    × (kaddr 0x80020 (pte_addr (pte_create (page2ppn 3) 6)) ≡ ok (page2ppn 3))
unfolding page2ppn
pte2page-pte_create_example =
    pte2page-pte_create 0x80020 3 6 (omega arith) (omega arith) (omega arith)

page_insert-fresh_example :
    (r : Vm) × (page_insert 3 0x8000a 4 0x2000 6 tables ≡ ok (pos 0, r))
    × (get_page 3 0x8000a 0x2000 r ≡ ok (some 4, r))
    × (ref_of r 4 ≡ (ref_of tables 4 + 1) % 2 ^ 32)
    × ((q : ℕ) → q ≢ 4 → ref_of r q ≡ ref_of tables q)
unfolding is_valid ptx
page_insert-fresh_example =
    page_insert-fresh 3 0x8000a 0x2000 0x8000b 0x8000c tables at_2000 4 6 fourth_IsPage refl

page_insert-replaces_example :
    (r : Vm) × (page_insert 3 0x8000a 4 0x1000 6 tables ≡ ok (pos 0, r))
    × (get_page 3 0x8000a 0x1000 r ≡ ok (some 4, r))
    × (ref_of r 4 ≡ (ref_of tables 4 + 1) % 2 ^ 32)
    × (ref_of r 3 + 1 ≡ ref_of tables 3)
    × ((q : ℕ) → q ≢ 4 → q ≢ 3 → ref_of r q ≡ ref_of tables q)
unfolding is_valid ptx pte2page page2ppn
page_insert-replaces_example =
    page_insert-replaces 3 0x8000a 0x1000 0x8000b 0x8000c tables at_1000 4 6 3 fourth_IsPage refl
      refl (omega arith) (omega arith) (omega arith) (omega arith)

page_remove-unmaps_example :
    (r : Vm) × (page_remove 3 0x8000a 0x1000 tables ≡ ok r)
    × (get_page 3 0x8000a 0x1000 r ≡ ok (none, r))
    × (ref_of r 3 + 1 ≡ ref_of tables 3)
    × ((q : ℕ) → q ≢ 3 → ref_of r q ≡ ref_of tables q)
unfolding is_valid ptx pte2page page2ppn
page_remove-unmaps_example =
    page_remove-unmaps 3 0x8000a 0x1000 0x8000b 0x8000c tables at_1000 3 refl refl (omega arith)
      (omega arith) (omega arith)

region : Region tables 0x8000a 0 0x8000b 0x8000c
unfolding is_valid kaddr pte_addr
region = record {
  upper = record { valid = refl; reach = refl };
  lower = record { valid = refl; reach = refl };
  not_first = omega arith;
  not_second = omega arith;
}

boot_map_segment-Mapped_example :
    (r : Vm) × (boot_map_segment 3 0x8000a 0x2010 0x1800 0x80005010 6 tables ≡ ok r)
    × Mapped tables r 0x8000c 2 2 0x80005 6
boot_map_segment-Mapped_example =
    boot_map_segment-Mapped 3 0x8000a 0x8000b 0x8000c 0x2010 0x1800 0x80005010 6 tables region refl
      (omega arith) (omega arith) (omega arith)

abbrev item_table : ℕ → ℕ
item_table j = if j == 2 then 0x407 else if j == 3 then 0x807 else 0

get_pgtable_items_test : get_pgtable_items 8 0 item_table ≡ (7, some (2, 4))
unfolding get_pgtable_items is_valid
get_pgtable_items_test = refl

perm2str_test : perm2str 0x17 ≡ codes "urw"
unfolding perm2str
perm2str_test = refl
