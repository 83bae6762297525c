-- ===== src/Paging.antt =====
-- kern/mm/pmm.c, pmm.h and mmu.h: page tables and the pages that they map. A physical page is its
-- index in `pages`, a table the number of the physical page that holds it, and a pointer to an entry
-- a table with an index; the kernel reaches a table through KADDR, whose check is part of the
-- model. `fuel` is that of the page allocator. The permissions `perm` are below 2 ^ 10.
pub mod Bits
pub mod Address
pub mod Walk
pub mod Insert
pub mod Items
use Prim.Native.Nat.{bit_or}
use os_lab.Base.{
  ℕ, ◌+◌, ◌-◌, ◌*◌, ◌/◌, ◌%◌, ◌^◌, Bool, true, false, Option, none, some, Run, ok, panic, ltb, leb,
  ◌==◌, ◌&&◌, ◌||◌, not, if◌then◌else◌, ◌>>=◌, ◌>>◌, ℤ, pos, negate,
}
use os_lab.Links.{update}
use os_lab.Pmm.{Page, Pmm, put_page, default_alloc_pages, default_free_pages}

pub record Vm : Type 0 where
  pub pmm : Pmm
  pub table : ℕ → ℕ → ℕ
  pub npage : ℕ

-- DRAM_BASE / PGSIZE.
abbrev pub nbase : ℕ
nbase = 0x80000

-- Addresses, mmu.h.
unfoldable pub pdx1 : ℕ → ℕ
pdx1 la = la / 2 ^ 30 % 2 ^ 9

unfoldable pub pdx0 : ℕ → ℕ
pdx0 la = la / 2 ^ 21 % 2 ^ 9

unfoldable pub ptx : ℕ → ℕ
ptx la = la / 2 ^ 12 % 2 ^ 9

unfoldable pub ppn : ℕ → ℕ
ppn la = la / 2 ^ 12

unfoldable pub pgoff : ℕ → ℕ
pgoff la = la % 2 ^ 12

-- The parts have no bit in common where the indexes are below 2 ^ 9 and the offset below 2 ^ 12.
unfoldable pub pgaddr : ℕ → ℕ → ℕ → ℕ → ℕ
pgaddr d1 d0 t o = d1 * 2 ^ 30 + d0 * 2 ^ 21 + t * 2 ^ 12 + o

unfoldable pub pte_addr : ℕ → ℕ
pte_addr pte = pte / 2 ^ 10 * 2 ^ 12 % 2 ^ 64

abbrev pub pte_v : ℕ
pte_v = 1

abbrev pub pte_u : ℕ
pte_u = 0x10

unfoldable pub is_valid : ℕ → Bool
is_valid pte = pte % 2 == 1

-- `(ppn << PTE_PPN_SHIFT) | PTE_V | type`.
unfoldable pub pte_create : ℕ → ℕ → ℕ
pte_create n type = bit_or (bit_or (n * 2 ^ 10 % 2 ^ 64) pte_v) type

-- Pages and physical addresses, pmm.h.
unfoldable pub page2ppn : ℕ → ℕ
page2ppn page = page + nbase

unfoldable pub page2pa : ℕ → ℕ
unfolding page2ppn
page2pa page = page2ppn page * 2 ^ 12

-- Below DRAM the index into `pages` wraps, to memory in front of the array.
unfoldable pub pa2page : ℕ → ℕ → Run ℕ
unfolding ppn
pa2page npage pa = if leb npage (ppn pa) then panic else ok ((ppn pa + 2 ^ 64 - nbase) % 2 ^ 64)

unfoldable pub pte2page : ℕ → ℕ → Run ℕ
unfolding is_valid pte_addr pa2page
pte2page npage pte = if is_valid pte then pa2page npage (pte_addr pte) else panic

-- KADDR, of an address at the start of a page: the page that is reached.
unfoldable pub kaddr : ℕ → ℕ → Run ℕ
unfolding ppn
kaddr npage pa = if leb npage (ppn pa) then panic else ok (ppn pa)

abbrev pub set_ref : ℕ → ℕ → Vm → Vm
set_ref page val s = record s { pmm = put_page page (record (s.pmm.page page) { ref = val }) s.pmm }

-- `int` arithmetic on the 32-bit pattern of the counter.
unfoldable pub page_ref_inc : ℕ → Vm → Vm
page_ref_inc page s = set_ref page (((s.pmm.page page).ref + 1) % 2 ^ 32) s

unfoldable pub page_ref_dec : ℕ → Vm → Vm
page_ref_dec page s = set_ref page (((s.pmm.page page).ref + (2 ^ 32 - 1)) % 2 ^ 32) s

abbrev pub put_pte : ℕ → ℕ → ℕ → Vm → Vm
put_pte t i v s = record s { table = update s.table t (update (s.table t) i v) }

abbrev pub clear_table : ℕ → Vm → Vm
clear_table t s = record s { table = update s.table t (λ _. 0) }

-- `alloc_pages` and `free_pages`: the calls of the manager.
unfoldable pub alloc_page : ℕ → Vm → Run (Option ℕ × Vm)
alloc_page fuel s = default_alloc_pages fuel 1 s.pmm >>= λ r. ok (r.0, record s { pmm = r.1 })

unfoldable pub free_page : ℕ → ℕ → Vm → Run Vm
free_page fuel page s = default_free_pages fuel page 1 s.pmm >>= λ p. ok (record s { pmm = p })

-- A new table for the entry `i` of table `t`.
unfoldable pub new_table : ℕ → ℕ → ℕ → Vm → Run Vm
unfolding kaddr page2ppn page2pa pte_create
new_table t i page s = do
  k ← kaddr s.npage (page2pa page)
  ok (put_pte t i (pte_create (page2ppn page) (pte_u + pte_v)) (clear_table k (set_ref page 1 s)))

-- One of the two upper levels of `get_pte`: the table that entry `i` of table `t` leads to, `none`
-- for the return of NULL.
unfoldable pub next_table : ℕ → ℕ → ℕ → Bool → Vm → Run (Option ℕ × Vm)
next_table fuel t i create s =
    if is_valid (s.table t i)
    then (kaddr s.npage (pte_addr (s.table t i)) >>= λ k. ok (some k, s))
    else if not create
    then ok (none, s)
    else (alloc_page fuel s >>= λ r. elim r.0 [
      | none ↦ ok (none, r.1)
      | some page ↦ new_table t i page r.1 >>= λ u.
          kaddr u.npage (pte_addr (u.table t i)) >>= λ k. ok (some k, u)
    ])

-- The entry for `la`: its table and its index.
unfoldable pub get_pte : ℕ → ℕ → ℕ → Bool → Vm → Run (Option (ℕ × ℕ) × Vm)
get_pte fuel pgdir la create s = next_table fuel pgdir (pdx1 la) create s >>= λ r. elim r.0 [
  | none ↦ ok (none, r.1)
  | some t ↦ next_table fuel t (pdx0 la) create r.1 >>= λ q. elim q.0 [
    | none ↦ ok (none, q.1)
    | some u ↦ ok (some (u, ptx la), q.1)
  ]
]

unfoldable pub get_page : ℕ → ℕ → ℕ → Vm → Run (Option ℕ × Vm)
get_page fuel pgdir la s = get_pte fuel pgdir la false s >>= λ r. elim r.0 [
  | none ↦ ok (none, r.1)
  | some (t, i) ↦
      if is_valid (r.1.table t i)
      then (pte2page r.1.npage (r.1.table t i) >>= λ p. ok (some p, r.1))
      else ok (none, r.1)
]

-- `page_remove_pte`; the entry is invalidated in the TLB at the end.
unfoldable pub page_remove_pte : ℕ → ℕ → ℕ → Vm → Run Vm
page_remove_pte fuel t i s =
    if is_valid (s.table t i)
    then (pte2page s.npage (s.table t i) >>= λ page.
        let d = page_ref_dec page s in
        (if (d.pmm.page page).ref == 0 then free_page fuel page d else ok d) >>= λ u.
        ok (put_pte t i 0 u))
    else ok s

unfoldable pub page_remove : ℕ → ℕ → ℕ → Vm → Run Vm
page_remove fuel pgdir la s = get_pte fuel pgdir la false s >>= λ r. elim r.0 [
  | none ↦ ok r.1
  | some (t, i) ↦ page_remove_pte fuel t i r.1
]

-- What `page_insert` does with the entry that was there.
unfoldable pub replace_pte : ℕ → ℕ → ℕ → ℕ → Vm → Run Vm
replace_pte fuel page t i s =
    if is_valid (s.table t i)
    then (pte2page s.npage (s.table t i) >>= λ p.
        if p == page then ok (page_ref_dec page s) else page_remove_pte fuel t i s)
    else ok s

-- The result 0, or - E_NO_MEM.
unfoldable pub page_insert : ℕ → ℕ → ℕ → ℕ → ℕ → Vm → Run (ℤ × Vm)
page_insert fuel pgdir page la perm s = get_pte fuel pgdir la true s >>= λ r. elim r.0 [
  | none ↦ ok (negate 4, r.1)
  | some (t, i) ↦ replace_pte fuel page t i (page_ref_inc page r.1) >>= λ u.
      ok (pos 0, put_pte t i (pte_create (page2ppn page) perm) u)
]
