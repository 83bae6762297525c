-- ===== src/Paging/Address.antt =====
-- The address macros of kern/mm/mmu.h and the page table entries of kern/mm/pmm.h.
use Prim.Native.Nat.{bit_or}
use os_lab.Base.{ℕ, ◌+◌, ◌*◌, ◌/◌, ◌%◌, ◌^◌, ap, ◌∙◌, ◌<◌, ◌≡◌, refl, true, false, leb, ok, arith}
use os_lab.Paging.Bits.{bit_or-odd, bit_or-odd_right, bit_or-shift, bit_or-zero}
use os_lab.Paging.{
  pdx1, pdx0, ptx, ppn, pgoff, pgaddr, pte_addr, is_valid, pte_create, page2ppn, pa2page, pte2page,
  kaddr, nbase,
}

-- Indexes below 2 ^ 9 and an offset below 2 ^ 12 are read back from the address that they make.
parts-pgaddr :
    (d1 d0 t o : ℕ)
    → d1 < 2 ^ 9
    → d0 < 2 ^ 9
    → t < 2 ^ 9
    → o < 2 ^ 12
    → (pdx1 (pgaddr d1 d0 t o) ≡ d1)
      × (pdx0 (pgaddr d1 d0 t o) ≡ d0)
      × (ptx (pgaddr d1 d0 t o) ≡ t)
      × (pgoff (pgaddr d1 d0 t o) ≡ o)
unfolding pgaddr pdx1 pdx0 ptx pgoff
parts-pgaddr d1 d0 t o a b c d = (omega arith, omega arith, omega arith, omega arith)

pub pte_create-valid : (n type : ℕ) → is_valid (pte_create n type) ≡ true
unfolding is_valid pte_create
pte_create-valid n type =
    let kept =
      bit_or-odd (bit_or (n * 2 ^ 10 % 2 ^ 64) 1) type
        (bit_or-odd_right (n * 2 ^ 10 % 2 ^ 64) 1 refl) in
    ground (arith, kept)

pub pte_addr-pte_create :
    (n type : ℕ) → n < 2 ^ 44 → type < 2 ^ 10 → pte_addr (pte_create n type) ≡ n * 2 ^ 12
unfolding pte_addr pte_create
pte_addr-pte_create n type h k =
    let a = n * 2 ^ 10 % 2 ^ 64 in
    let none_left : type / 2 ^ 10 ≡ 0 = omega (arith, k) in
    let number : a / 2 ^ 10 ≡ n = omega (arith, h) in
    let shifted : bit_or (bit_or a 1) type / 2 ^ 10 ≡ n =
      bit_or-shift (bit_or a 1) type
      ∙ ap (λ x. bit_or (bit_or a 1 / 2 ^ 10) x) none_left
      ∙ bit_or-zero (bit_or a 1 / 2 ^ 10)
      ∙ bit_or-shift a 1
      ∙ bit_or-zero (a / 2 ^ 10)
      ∙ number in
    omega (arith, shifted, h)

-- A page in range is read back from the entry that maps it, whatever the permissions, and by the
-- address of that entry KADDR reaches the page.
pub pte2page-pte_create :
    (npage page perm : ℕ)
    → page2ppn page < npage
    → npage < 2 ^ 44
    → perm < 2 ^ 10
    → (pte2page npage (pte_create (page2ppn page) perm) ≡ ok page)
      × (kaddr npage (pte_addr (pte_create (page2ppn page) perm)) ≡ ok (page2ppn page))
unfolding pte2page pa2page ppn page2ppn kaddr
pte2page-pte_create npage page perm a b c =
    let n = page + nbase in
    let v = pte_create-valid n perm in
    let e = pte_addr-pte_create n perm (omega arith) c in
    let back : n * 2 ^ 12 / 2 ^ 12 ≡ n = omega arith in
    let inside : leb npage n ≡ false = ground arith in
    (rw (v, e, back, inside) (ground arith), rw (e, back, inside) refl)
