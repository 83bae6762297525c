-- ===== src/Pmm.antt =====
-- kern/mm/default_pmm.c: the first-fit allocator of physical pages. A page is its index in the
-- array `pages`; the entry `page_link` of page `p` is the address `p + 1`, and the list head
-- `free_list` is the address 0. `fuel` bounds the rounds of a walk round the free list.
use os_lab.Base.{
  ℕ, zero, suc, ◌+◌, ◌-◌, ◌%◌, ◌^◌, Bool, Option, none, some, Run, ok, panic, spin, ◌>>=◌, ◌>>◌,
  ltb, leb, ◌==◌, ◌&&◌, not, if◌then◌else◌,
}
use os_lab.Links.{Links, update, list_init, list_add, list_add_before, list_del, list_empty}
use os_lab.Atomic.{test_bit, set_bit, clear_bit}
pub mod Blocks
pub mod Place
pub mod Alloc
pub mod Take
pub mod Add
pub mod Join
pub mod Edges
pub mod Merge
pub mod Free
pub mod Behind
pub mod Safety

-- `ref` is the 32-bit pattern of an `int`, `property` an `unsigned int`.
pub record Page : Type 0 where
  pub ref : ℕ
  pub flags : ℕ
  pub property : ℕ

-- The page array with the links inside its entries, and `free_area`.
pub record Pmm : Type 0 where
  pub page : ℕ → Page
  pub links : Links
  pub nr_free : ℕ

abbrev pub free_list : ℕ
free_list = 0

abbrev pub page_link : ℕ → ℕ
page_link p = suc p

abbrev pub le2page : ℕ → ℕ
le2page zero = zero
le2page (suc p) = p

unfoldable pub page_reserved : Page → Bool
unfolding test_bit
page_reserved p = test_bit 0 p.flags

unfoldable pub page_property : Page → Bool
unfolding test_bit
page_property p = test_bit 1 p.flags

unfoldable pub set_page_property : Page → Page
unfolding set_bit
set_page_property p = record p { flags = set_bit 1 p.flags }

unfoldable pub clear_page_property : Page → Page
unfolding clear_bit
clear_page_property p = record p { flags = clear_bit 1 p.flags }

abbrev pub put_page : ℕ → Page → Pmm → Pmm
put_page i p s = record s { page = update s.page i p }

unfoldable pub default_init : Pmm → Pmm
unfolding list_init
default_init s = record s { links = list_init free_list s.links; nr_free = 0 }

unfoldable pub default_nr_free_pages : Pmm → ℕ
default_nr_free_pages s = s.nr_free

-- The first loop of `default_init_memmap`.
unfoldable pub init_pages : ℕ → ℕ → (ℕ → Page) → Run (ℕ → Page)
init_pages base zero pg = ok pg
init_pages base (suc n) pg =
    let rest =
      init_pages (suc base) n (update pg base (record { ref = 0; flags = 0; property = 0 })) in
    if page_reserved (pg base) then rest else panic

-- The first loop of `default_free_pages`.
unfoldable pub reset_pages : ℕ → ℕ → (ℕ → Page) → Run (ℕ → Page)
reset_pages base zero pg = ok pg
reset_pages base (suc n) pg =
    let rest =
      reset_pages (suc base) n (update pg base (record (pg base) { ref = 0; flags = 0 })) in
    if not (page_reserved (pg base)) && not (page_property (pg base)) then rest else panic

-- `while ((le = list_next(le)) != &free_list)` of both functions: the search for the place of
-- `base`. Behind the last entry the loop does not end: it goes on at the entry just added.
unfoldable pub insert_loop : ℕ → ℕ → ℕ → Links → Run Links
insert_loop zero base le h = spin
insert_loop (suc fuel) base le h =
    let at = h.next le in
    let added = insert_loop fuel base at (list_add at (page_link base) h) in
    let on = insert_loop fuel base at h in
    if at == free_list
    then ok h
    else if ltb base (le2page at)
    then ok (list_add_before at (page_link base) h)
    else if h.next at == free_list
    then added
    else on

unfoldable pub insert_block : ℕ → ℕ → Links → Run Links
unfolding insert_loop list_empty
insert_block fuel base h =
    if list_empty free_list h
    then ok (list_add free_list (page_link base) h)
    else insert_loop fuel base free_list h

-- What both functions do to the head page and the counter: property, flag, `nr_free += n`.
unfoldable pub add_block : ℕ → ℕ → Pmm → Pmm
add_block base n s = record s {
  page = update s.page base (set_page_property (record (s.page base) { property = n % 2 ^ 32 }));
  nr_free = (s.nr_free + n) % 2 ^ 32;
}

unfoldable pub default_init_memmap : ℕ → ℕ → ℕ → Pmm → Run Pmm
default_init_memmap fuel base n s = if n == 0 then panic else do
  pg ← init_pages base n s.page
  let t = add_block base n (record s { page = pg })
  h ← insert_block fuel base t.links
  ok (record t { links = h })

-- The search of `default_alloc_pages`.
unfoldable pub find_fit : ℕ → ℕ → ℕ → Pmm → Run (Option ℕ)
find_fit zero n le s = spin
find_fit (suc fuel) n le s =
    let at = s.links.next le in
    let on = find_fit fuel n at s in
    if at == free_list
    then ok none
    else if leb n (s.page (le2page at)).property
    then ok (some (le2page at))
    else on

-- The remainder of a larger block goes back in its place, behind `prev`.
unfoldable pub split_block : ℕ → ℕ → ℕ → Pmm → Pmm
split_block prev page n s =
    let p = page + n in
    if ltb n (s.page page).property
    then record s {
      page =
          update s.page p
            (set_page_property (record (s.page p) { property = (s.page page).property - n }));
      links = list_add prev (page_link p) s.links;
    }
    else s

unfoldable pub take_block : ℕ → ℕ → Pmm → Pmm
unfolding split_block
take_block n page s =
    let prev = s.links.prev (page_link page) in
    let t = split_block prev page n (record s { links = list_del (page_link page) s.links }) in
    record t {
      page = update t.page page (clear_page_property (t.page page));
      nr_free = (t.nr_free + 2 ^ 32 - n % 2 ^ 32) % 2 ^ 32;
    }

abbrev pub take_found : ℕ → Option ℕ → Pmm → Option ℕ × Pmm
take_found n none s = (none, s)
take_found n (some page) s = (some page, take_block n page s)

unfoldable pub default_alloc_pages : ℕ → ℕ → Pmm → Run (Option ℕ × Pmm)
default_alloc_pages fuel n s =
    if n == 0
    then panic
    else if ltb s.nr_free n
    then ok (none, s)
    else find_fit fuel n free_list s >>= λ found. ok (take_found n found s)

-- `default_free_pages`, the merge with the block in front; the result is the block's head.
unfoldable pub merge_prev : ℕ → Pmm → ℕ × Pmm
merge_prev base s =
    let le = s.links.prev (page_link base) in
    let p = le2page le in
    if le == free_list
    then (base, s)
    else if p + (s.page p).property == base
    then (
      p,
      record s {
        page =
            update
              (update s.page p (record (s.page p) {
                property = ((s.page p).property + (s.page base).property) % 2 ^ 32;
              }))
              base (clear_page_property (s.page base));
        links = list_del (page_link base) s.links;
      },
    )
    else (base, s)

-- The merge with the block behind.
unfoldable pub merge_next : ℕ → Pmm → Pmm
merge_next base s =
    let le = s.links.next (page_link base) in
    let p = le2page le in
    if le == free_list
    then s
    else if base + (s.page base).property == p
    then record s {
      page =
          update
            (update s.page base (record (s.page base) {
              property = ((s.page base).property + (s.page p).property) % 2 ^ 32;
            }))
            p (clear_page_property (s.page p));
      links = list_del (page_link p) s.links;
    }
    else s

unfoldable pub merge_both : ℕ → Pmm → Pmm
merge_both base s = let (head, t) = merge_prev base s in merge_next head t

unfoldable pub default_free_pages : ℕ → ℕ → ℕ → Pmm → Run Pmm
default_free_pages fuel base n s = if n == 0 then panic else do
  pg ← reset_pages base n s.page
  let t = add_block base n (record s { page = pg })
  h ← insert_block fuel base t.links
  ok (merge_both base (record t { links = h }))
