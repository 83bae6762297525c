-- ===== src/Paging/Walk.antt =====
-- `get_pte` of kern/mm/pmm.c: the walk through the three levels of tables.
use os_lab.Base.{
  ℕ, ◌+◌, ◌*◌, ◌/◌, ◌^◌, ◌<◌, ◌≡◌, ◌≢◌, refl, ◌⊎◌, inl, inr, [], ◌∷◌, Bool, true, false, Option,
  none, some, List, leb, ◌==◌, ok, arith, length,
}
use os_lab.Pmm.{Page, Pmm, default_alloc_pages}
use os_lab.Pmm.Blocks.{FreeList, covered, Blocks, AllSmall, total}
use os_lab.Pmm.Alloc.{Allocates, default_alloc_pages-Allocates}
use os_lab.Paging.{
  Vm, pdx1, pdx0, ptx, pte_addr, is_valid, pte_create, page2ppn, page2pa, ppn, kaddr, next_table,
  new_table, get_pte, alloc_page, put_pte, clear_table, set_ref, pte_u, pte_v,
}
use os_lab.Paging.Address.{pte_create-valid, pte2page-pte_create}

-- Entry `i` of table `t` leads to the table `u`.
pub record Leads (s : Vm) (t i u : ℕ) : Type 0 where
  pub valid : is_valid (s.table t i) ≡ true
  pub reach : kaddr s.npage (pte_addr (s.table t i)) ≡ ok u

next_table-follows :
    (fuel t i u : ℕ) (create : Bool) (s : Vm)
    → Leads s t i u
    → next_table fuel t i create s ≡ ok (some u, s)
unfolding next_table
next_table-follows fuel t i u create s l = rw (l.valid, l.reach) refl

-- Where both upper levels of tables are there, `get_pte` finds the entry for the address in the
-- third and changes nothing, whether or not it may create tables.
pub get_pte-follows :
    (fuel pgdir la t u : ℕ) (create : Bool) (s : Vm)
    → Leads s pgdir (pdx1 la) t
    → Leads s t (pdx0 la) u
    → get_pte fuel pgdir la create s ≡ ok (some (u, ptx la), s)
unfolding get_pte
get_pte-follows fuel pgdir la t u create s a b =
    rw (next_table-follows fuel pgdir (pdx1 la) t create s a)
      (rw (next_table-follows fuel t (pdx0 la) u create s b) refl)

-- Where one of the upper levels is missing, `get_pte` with no leave to create tables returns NULL
-- and changes nothing.
pub get_pte-missing :
    (fuel pgdir la : ℕ) (s : Vm)
    → (is_valid (s.table pgdir (pdx1 la)) ≡ false)
      ⊎ ((t : ℕ) × Leads s pgdir (pdx1 la) t × (is_valid (s.table t (pdx0 la)) ≡ false))
    → get_pte fuel pgdir la false s ≡ ok (none, s)
unfolding get_pte next_table
get_pte-missing fuel pgdir la s (inl a) = rw a refl
get_pte-missing fuel pgdir la s (inr (t, l, a)) = rw (l.valid, l.reach) (rw a refl)

-- What creating a table for entry `i` of table `t` comes to.
pub record Created (s r : Vm) (xs : List ℕ) (t i u : ℕ) : Type 0 where
  pub page : ℕ
  pub number : u ≡ page2ppn page
  pub leads : Leads r t i u
  pub empty : (j : ℕ) → is_valid (r.table u j) ≡ false
  pub referenced : (r.pmm.page page).ref ≡ 1
  pub was_free : covered s.pmm.page xs page ≡ true
  pub others : (v j : ℕ) → v ≢ t → v ≢ u → r.table v j ≡ s.table v j

new_table-run :
    (t i page : ℕ) (s : Vm)
    → page2ppn page < s.npage
    → new_table t i page s
      ≡ ok (
          put_pte t i
            (pte_create (page2ppn page) (pte_u + pte_v))
            (clear_table (page2ppn page) (set_ref page 1 s)))
unfolding new_table kaddr ppn page2pa
new_table-run t i page s h =
    let back : page2ppn page * 2 ^ 12 / 2 ^ 12 ≡ page2ppn page = omega arith in
    let inside : leb s.npage (page2ppn page) ≡ false = ground arith in rw (back, inside) refl

new_table-Leads :
    (t i page : ℕ) (s : Vm)
    → page2ppn page < s.npage
    → s.npage < 2 ^ 44
    → Leads
        (put_pte t i
          (pte_create (page2ppn page) (pte_u + pte_v))
          (clear_table (page2ppn page) (set_ref page 1 s)))
        t
        i
        (page2ppn page)
new_table-Leads t i page s h k =
    let here : (i == i) ≡ true = ground arith in
    let there : (t == t) ≡ true = ground arith in
    record {
      valid = rw (there, here) (pte_create-valid (page2ppn page) (pte_u + pte_v));
      reach =
          rw (there, here) (pte2page-pte_create s.npage page (pte_u + pte_v) h k (omega arith)).1;
    }

-- With a free page every list of blocks has one that is large enough for it.
AllSmall-none :
    (pg : ℕ → Page) (lo : ℕ) (xs : List ℕ) → Blocks pg lo xs → AllSmall pg 1 xs → total pg xs ≡ 0
unfolding total
AllSmall-none pg lo [] b a = refl
AllSmall-none pg lo (x ∷ xs) b a = absurd (omega arith)

-- The state that `next_table` leaves once it has the page.
abbrev with_table : ℕ → ℕ → ℕ → Vm → Vm
with_table t i page r =
    put_pte t i (pte_create (page2ppn page) (pte_u + pte_v))
      (clear_table (page2ppn page) (set_ref page 1 r))

-- The new table is empty.
blank :
    (t i page j : ℕ) (s : Vm)
    → page2ppn page ≢ t
    → is_valid ((with_table t i page s).table (page2ppn page) j) ≡ false
unfolding is_valid
blank t i page j s ne = ground arith

next_table-allocates :
    (fuel t i page : ℕ) (s : Vm) (p : Pmm)
    → is_valid (s.table t i) ≡ false
    → default_alloc_pages fuel 1 s.pmm ≡ ok (some page, p)
    → page2ppn page < s.npage
    → s.npage < 2 ^ 44
    → next_table fuel t i true s
      ≡ ok (some (page2ppn page), with_table t i page (record s { pmm = p }))
unfolding next_table alloc_page
next_table-allocates fuel t i page s p v run h k =
    let r = record s { pmm = p } in
    rw (v, run) (rw (new_table-run t i page r h) (rw (new_table-Leads t i page r h k).reach refl))

-- Entry `i` of table `t` is not valid, a page is free, and every free page lies below `npage` and is
-- not the table `t`. With fuel above the number of free blocks `next_table` with leave to create
-- returns a new table: it was a free page, the entry leads to it, none of its entries is valid, its
-- counter is 1, and the other tables are as they were.
pub next_table-Created :
    (fuel t i : ℕ) (s : Vm) (xs : List ℕ)
    → is_valid (s.table t i) ≡ false
    → FreeList s.pmm xs
    → 0 < s.pmm.nr_free
    → ((q : ℕ) → covered s.pmm.page xs q ≡ true → page2ppn q < s.npage)
    → ((q : ℕ) → covered s.pmm.page xs q ≡ true → page2ppn q ≢ t)
    → s.npage < 2 ^ 44
    → length xs < fuel
    → (u : ℕ) × (r : Vm) × (next_table fuel t i true s ≡ ok (some u, r)) × Created s r xs t i u
next_table-Created fuel t i s xs v l free inside apart k f =
    let (r, run, a) = default_alloc_pages-Allocates fuel 1 s.pmm xs (omega arith) l f in
    found r run a
  where
    found :
        (r : Option ℕ × Pmm)
        → default_alloc_pages fuel 1 s.pmm ≡ ok r
        → Allocates s.pmm xs 1 r
        → (u : ℕ) × (r : Vm) × (next_table fuel t i true s ≡ ok (some u, r)) × Created s r xs t i u
    found (none, p) run a =
        absurd (omega (arith, AllSmall-none s.pmm.page 0 xs l.blocks a.1, l.counted))
    found (some page, p) run a =
        let w : covered s.pmm.page xs page ≡ true = ground (arith, a.frees page) in
        let h = inside page w in
        let ne = apart page w in
        (
          page2ppn page,
          with_table t i page (record s { pmm = p }),
          next_table-allocates fuel t i page s p v run h k,
          record {
            page = page;
            number = refl;
            leads = new_table-Leads t i page (record s { pmm = p }) h k;
            empty = λ j. blank t i page j (record s { pmm = p }) ne;
            referenced = ground arith;
            was_free = w;
            others = λ v j a b. ground arith;
          },
        )
