-- ===== src/Paging/Insert.antt =====
-- `page_insert`, `page_remove` and `get_page` of kern/mm/pmm.c where the tables for the address are
-- there: what is mapped afterwards, and the reference counters of the pages.
use os_lab.Base.{
  ℕ, ◌+◌, ◌-◌, ◌%◌, ◌^◌, ◌<◌, ◌≡◌, ◌≢◌, refl, true, false, none, some, ◌==◌, Run, ok, pos, arith,
}
use os_lab.Paging.{
  Vm, pdx1, pdx0, ptx, is_valid, pte_create, pte2page, page2ppn, get_pte, get_page, put_pte,
  page_ref_inc, page_ref_dec, replace_pte, page_insert, page_remove_pte, page_remove,
}
use os_lab.Paging.Address.{pte_create-valid, pte2page-pte_create}
use os_lab.Paging.Walk.{Leads, get_pte-follows}

-- The tables for `la`: the second is `t`, and the third, `u`, is neither of the others.
pub record Tables (s : Vm) (pgdir la t u : ℕ) : Type 0 where
  pub upper : Leads s pgdir (pdx1 la) t
  pub lower : Leads s t (pdx0 la) u
  pub not_first : u ≢ pgdir
  pub not_second : u ≢ t

-- A page that may be mapped, and its permissions.
pub record IsPage (s : Vm) (page perm : ℕ) : Type 0 where
  pub inside : page2ppn page < s.npage
  pub limit : s.npage < 2 ^ 44
  pub rights : perm < 2 ^ 10

abbrev pub ref_of : Vm → ℕ → ℕ
ref_of s page = (s.pmm.page page).ref

sym_ne : {a b : ℕ} → a ≢ b → b ≢ a
sym_ne n = omega arith

page_remove_pte-shared :
    (fuel t i page : ℕ) (s : Vm)
    → is_valid (s.table t i) ≡ true
    → pte2page s.npage (s.table t i) ≡ ok page
    → 1 < ref_of s page
    → ref_of s page < 2 ^ 32
    → page_remove_pte fuel t i s ≡ ok (put_pte t i 0 (page_ref_dec page s))
unfolding page_remove_pte page_ref_dec
page_remove_pte-shared fuel t i page s v e more small =
    let here : (page == page) ≡ true = ground arith in
    let left : ((ref_of s page + (2 ^ 32 - 1)) % 2 ^ 32 == 0) ≡ false = ground arith in
    rw (v, e) (rw (here, left) refl)

module _ (fuel pgdir la t u : ℕ) (s : Vm) (w : Tables s pgdir la t u) where
  -- Only the third table and the counters differ.
  written :
      (v : Vm) (pte : ℕ)
      → ((a j : ℕ) → a ≢ u → v.table a j ≡ s.table a j)
      → v.npage ≡ s.npage
      → get_pte fuel pgdir la false (put_pte u (ptx la) pte v)
        ≡ ok (some (u, ptx la), put_pte u (ptx la) pte v)
  written v pte e n =
      let r = put_pte u (ptx la) pte v in
      let ne : (pgdir == u) ≡ false = ground (arith, w.not_first) in
      let ne' : (t == u) ≡ false = ground (arith, w.not_second) in
      get_pte-follows fuel pgdir la t u false r
        (record {
          valid = rw (ne, e pgdir (pdx1 la) (sym_ne w.not_first)) w.upper.valid;
          reach = rw (ne, e pgdir (pdx1 la) (sym_ne w.not_first), n) w.upper.reach;
        })
        (record {
          valid = rw (ne', e t (pdx0 la) (sym_ne w.not_second)) w.lower.valid;
          reach = rw (ne', e t (pdx0 la) (sym_ne w.not_second), n) w.lower.reach;
        })

  get_page-written :
      (v : Vm) (page perm : ℕ)
      → ((a j : ℕ) → a ≢ u → v.table a j ≡ s.table a j)
      → v.npage ≡ s.npage
      → IsPage s page perm
      → get_page fuel pgdir la (put_pte u (ptx la) (pte_create (page2ppn page) perm) v)
        ≡ ok (some page, put_pte u (ptx la) (pte_create (page2ppn page) perm) v)
  unfolding get_page
  get_page-written v page perm e n p =
      let pte = pte_create (page2ppn page) perm in
      let here : (u == u) ≡ true = ground arith in
      let there : (ptx la == ptx la) ≡ true = ground arith in
      rw (written v pte e n, here, there, pte_create-valid (page2ppn page) perm, n)
        (rw (pte2page-pte_create s.npage page perm p.inside p.limit p.rights).0 refl)

  get_page-cleared :
      (v : Vm)
      → ((a j : ℕ) → a ≢ u → v.table a j ≡ s.table a j)
      → v.npage ≡ s.npage
      → get_page fuel pgdir la (put_pte u (ptx la) 0 v) ≡ ok (none, put_pte u (ptx la) 0 v)
  unfolding get_page is_valid
  get_page-cleared v e n = rw (written v 0 e n) (ground arith)

  insert_by :
      (page perm : ℕ) (v : Vm)
      → replace_pte fuel page u (ptx la) (page_ref_inc page s) ≡ ok v
      → page_insert fuel pgdir page la perm s
        ≡ ok (pos 0, put_pte u (ptx la) (pte_create (page2ppn page) perm) v)
  unfolding page_insert
  insert_by page perm v run =
      rw (get_pte-follows fuel pgdir la t u true s w.upper w.lower) (rw run refl)

  remove_by :
      (v : Vm)
      → page_remove_pte fuel u (ptx la) s ≡ ok (put_pte u (ptx la) 0 v)
      → page_remove fuel pgdir la s ≡ ok (put_pte u (ptx la) 0 v)
  unfolding page_remove
  remove_by v run = rw (get_pte-follows fuel pgdir la t u false s w.upper w.lower) run

  replace_other :
      (page other : ℕ) (v : Vm) {r : Run Vm}
      → is_valid (v.table u (ptx la)) ≡ true
      → pte2page v.npage (v.table u (ptx la)) ≡ ok other
      → (other == page) ≡ false
      → page_remove_pte fuel u (ptx la) v ≡ r
      → replace_pte fuel page u (ptx la) v ≡ r
  unfolding replace_pte
  replace_other page other v a e d run = rw (a, e, d) run

  -- Both upper tables for `la` are there, and no page is mapped at `la`: `page_insert` returns 0, `get_page` then finds the page, its counter
  -- has risen by 1, and the other counters are as they were.
  pub page_insert-fresh :
      (page perm : ℕ)
      → IsPage s page perm
      → is_valid (s.table u (ptx la)) ≡ false
      → (r : Vm) × (page_insert fuel pgdir page la perm s ≡ ok (pos 0, r))
        × (get_page fuel pgdir la r ≡ ok (some page, r))
        × (ref_of r page ≡ (ref_of s page + 1) % 2 ^ 32)
        × ((q : ℕ) → q ≢ page → ref_of r q ≡ ref_of s q)
  unfolding replace_pte page_ref_inc
  page_insert-fresh page perm p v =
      let pte = pte_create (page2ppn page) perm in
      (
        put_pte u (ptx la) pte (page_ref_inc page s),
        insert_by page perm (page_ref_inc page s) (rw v refl),
        get_page-written (page_ref_inc page s) page perm (λ a j _. refl) refl p,
        ground arith,
        λ q ne. ground arith,
      )

  -- Both upper tables for `la` are there, and the page is mapped at `la` already: `page_insert` returns 0, `get_page` then finds the page, and
  -- all counters are as they were.
  page_insert-again :
      (page perm : ℕ)
      → IsPage s page perm
      → is_valid (s.table u (ptx la)) ≡ true
      → pte2page s.npage (s.table u (ptx la)) ≡ ok page
      → ref_of s page < 2 ^ 32
      → (r : Vm) × (page_insert fuel pgdir page la perm s ≡ ok (pos 0, r))
        × (get_page fuel pgdir la r ≡ ok (some page, r))
        × ((q : ℕ) → ref_of r q ≡ ref_of s q)
  unfolding replace_pte page_ref_inc page_ref_dec
  page_insert-again page perm p v e small =
      let pte = pte_create (page2ppn page) perm in
      let same : (page == page) ≡ true = ground arith in
      let back = page_ref_dec page (page_ref_inc page s) in
      (
        put_pte u (ptx la) pte back,
        insert_by page perm back (rw (v, e, same) refl),
        get_page-written back page perm (λ a j _. refl) refl p,
        λ q. ground arith,
      )

  -- Both upper tables for `la` are there, and another page, of DRAM, is mapped at `la` and somewhere else too: `page_insert` returns 0, `get_page` then
  -- finds the new page, the counter of the new page has risen by 1 and that of the other fallen by
  -- 1, and the remaining counters are as they were.
  pub page_insert-replaces :
      (page perm other : ℕ)
      → IsPage s page perm
      → is_valid (s.table u (ptx la)) ≡ true
      → pte2page s.npage (s.table u (ptx la)) ≡ ok other
      → page2ppn other < s.npage
      → other ≢ page
      → 1 < ref_of s other
      → ref_of s other < 2 ^ 32
      → (r : Vm) × (page_insert fuel pgdir page la perm s ≡ ok (pos 0, r))
        × (get_page fuel pgdir la r ≡ ok (some page, r))
        × (ref_of r page ≡ (ref_of s page + 1) % 2 ^ 32)
        × (ref_of r other + 1 ≡ ref_of s other)
        × ((q : ℕ) → q ≢ page → q ≢ other → ref_of r q ≡ ref_of s q)
  unfolding page_ref_inc page_ref_dec
  page_insert-replaces page perm other p v e dram ne more small =
      let pte = pte_create (page2ppn page) perm in
      let i = ptx la in
      let one = page_ref_inc page s in
      let kept : ref_of one other ≡ ref_of s other = ground arith in
      let gone = put_pte u i 0 (page_ref_dec other one) in
      let differ : (other == page) ≡ false = ground arith in
      (
        put_pte u i pte gone,
        insert_by page perm gone (
            replace_other page other one v e differ (
              page_remove_pte-shared fuel u i other one v e (omega (arith, kept))
                (omega (arith, kept)))),
        get_page-written gone page perm (λ a j n. ground arith) refl p,
        ground arith,
        ground arith,
        λ q a b. ground arith,
      )

  -- Both upper tables for `la` are there, and a page of DRAM is mapped at `la` and somewhere else too: after `page_remove` `get_page` finds none, the
  -- counter of the page has fallen by 1, and the other counters are as they were.
  pub page_remove-unmaps :
      (page : ℕ)
      → is_valid (s.table u (ptx la)) ≡ true
      → pte2page s.npage (s.table u (ptx la)) ≡ ok page
      → page2ppn page < s.npage
      → 1 < ref_of s page
      → ref_of s page < 2 ^ 32
      → (r : Vm) × (page_remove fuel pgdir la s ≡ ok r)
        × (get_page fuel pgdir la r ≡ ok (none, r))
        × (ref_of r page + 1 ≡ ref_of s page)
        × ((q : ℕ) → q ≢ page → ref_of r q ≡ ref_of s q)
  unfolding page_ref_dec
  page_remove-unmaps page v e dram more small =
      let i = ptx la in
      let d = page_ref_dec page s in
      (
        put_pte u i 0 d,
        remove_by d (page_remove_pte-shared fuel u i page s v e more small),
        get_page-cleared d (λ a j _. refl) refl,
        ground arith,
        λ q ne. ground arith,
      )
