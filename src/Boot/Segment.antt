-- ===== src/Boot/Segment.antt =====
-- `boot_map_segment` of kern/mm/pmm.c: consecutive pages mapped to consecutive physical pages.
use os_lab.Base.{
  ℕ, zero, suc, ◌+◌, ◌-◌, ◌*◌, ◌/◌, ◌%◌, ◌^◌, ◌<◌, ◌≤◌, ◌≡◌, ◌≢◌, ◌⊎◌, inl, inr, refl, ◌∙◌, true,
  false, none, some, Run, ok, panic, ◌==◌, if◌then◌else◌, ◌>>=◌, arith,
}
use os_lab.Paging.{Vm, pgoff, pdx1, pdx0, ptx, ppn, pte_create, pte_v, get_pte, put_pte}
use os_lab.Paging.Walk.{Leads, get_pte-follows}
use os_lab.Boot.{roundup, rounddown}

-- `PTE_V | perm`.
abbrev pub with_valid : ℕ → ℕ
with_valid perm = if perm % 2 == 1 then perm else perm + pte_v

-- The loop of `boot_map_segment`.
unfoldable pub map_pages : ℕ → ℕ → ℕ → ℕ → ℕ → ℕ → Vm → Run Vm
map_pages fuel pgdir la zero pa perm s = ok s
map_pages fuel pgdir la (suc n) pa perm s = get_pte fuel pgdir la true s >>= λ r. elim r.0 [
  | none ↦ panic
  | some (t, i) ↦
      map_pages fuel pgdir ((la + 2 ^ 12) % 2 ^ 64) n ((pa + 2 ^ 12) % 2 ^ 64) perm
        (put_pte t i (pte_create (ppn pa) (with_valid perm)) r.1)
]

unfoldable pub boot_map_segment : ℕ → ℕ → ℕ → ℕ → ℕ → ℕ → Vm → Run Vm
unfolding pgoff roundup rounddown
boot_map_segment fuel pgdir la size pa perm s =
    if pgoff la == pgoff pa
    then map_pages fuel pgdir (rounddown la) (roundup (size + pgoff la) / 2 ^ 12) (rounddown pa)
        perm s
    else panic

-- Only the entries `i` to `i + n - 1` of table `u` differ: they map the physical pages from number
-- `k` on.
pub record Mapped (s r : Vm) (u i n k perm : ℕ) : Type 0 where
  pub entries : (j : ℕ) → j < n → r.table u (i + j) ≡ pte_create (k + j) (with_valid perm)
  pub rest : (a j : ℕ) → (a ≢ u) ⊎ ((j < i) ⊎ (i + n ≤ j)) → r.table a j ≡ s.table a j
  pub pages : r.pmm ≡ s.pmm

Mapped-step :
    (s r : Vm) (u i n k perm : ℕ)
    → Mapped (put_pte u i (pte_create k (with_valid perm)) s) r u (suc i) n (suc k) perm
    → Mapped s r u i (suc n) k perm
Mapped-step s r u i n k perm m = record { entries = entries; rest = rest; pages = m.pages }
  where
    first : r.table u i ≡ pte_create k (with_valid perm)
    first =
        let same : (u == u) ≡ true = ground arith in
        let here : (i == i) ≡ true = ground arith in
        m.rest u i (inr (inl (omega arith))) ∙ rw (same, here) refl

    entries : (j : ℕ) → j < suc n → r.table u (i + j) ≡ pte_create (k + j) (with_valid perm)
    entries zero h =
        let at : i + 0 ≡ i = omega arith in
        let number : k + 0 ≡ k = omega arith in rw (at, number) first
    entries (suc j) h =
        let at : i + suc j ≡ suc i + j = omega arith in
        let number : k + suc j ≡ suc k + j = omega arith in
        rw (at, number) (m.entries j (omega (arith, h)))

    rest : (a j : ℕ) → (a ≢ u) ⊎ ((j < i) ⊎ (i + suc n ≤ j)) → r.table a j ≡ s.table a j
    rest a j (inl ne) =
        let e : (a == u) ≡ false = ground (arith, ne) in m.rest a j (inl ne) ∙ rw e refl
    rest a j (inr (inl b)) =
        let e : (j == i) ≡ false = ground (arith, b) in
        m.rest a j (inr (inl (omega (arith, b)))) ∙ ground (arith, e)
    rest a j (inr (inr b)) =
        let e : (j == i) ≡ false = ground (arith, b) in
        m.rest a j (inr (inr (omega (arith, b)))) ∙ ground (arith, e)

-- The tables of the region `g` of 2^21 bytes: the third, `u`, is neither of the others.
pub record Region (s : Vm) (pgdir g t u : ℕ) : Type 0 where
  pub upper : Leads s pgdir (g / 2 ^ 9 % 2 ^ 9) t
  pub lower : Leads s t (g % 2 ^ 9) u
  pub not_first : u ≢ pgdir
  pub not_second : u ≢ t

abbrev address : ℕ → ℕ → ℕ
address g i = g * 2 ^ 21 + i * 2 ^ 12

module _ (pgdir g t u : ℕ) where
  get_pte-Region :
      (fuel i : ℕ) (s : Vm)
      → Region s pgdir g t u
      → i < 512
      → get_pte fuel pgdir (address g i) true s ≡ ok (some (u, i), s)
  unfolding pdx1 pdx0 ptx
  get_pte-Region fuel i s w l =
      let e1 : pdx1 (address g i) ≡ g / 2 ^ 9 % 2 ^ 9 = omega arith in
      let e0 : pdx0 (address g i) ≡ g % 2 ^ 9 = omega arith in
      let e : ptx (address g i) ≡ i = omega arith in
      get_pte-follows fuel pgdir (address g i) t u true s (rw e1 w.upper) (rw e0 w.lower)
      ∙ rw e refl

  Region-put : (i pte : ℕ) (s : Vm) → Region s pgdir g t u → Region (put_pte u i pte s) pgdir g t u
  Region-put i pte s w =
      let ne : (pgdir == u) ≡ false = ground (arith, w.not_first) in
      let ne' : (t == u) ≡ false = ground (arith, w.not_second) in
      record {
        upper = record { valid = rw ne w.upper.valid; reach = rw ne w.upper.reach };
        lower = record { valid = rw ne' w.lower.valid; reach = rw ne' w.lower.reach };
        not_first = w.not_first;
        not_second = w.not_second;
      }

  map_pages-Mapped :
      (fuel i n k perm : ℕ) (s : Vm)
      → Region s pgdir g t u
      → i + n ≤ 512
      → (g + 1) * 2 ^ 21 < 2 ^ 64
      → (k + n) * 2 ^ 12 < 2 ^ 64
      → (r : Vm) × (map_pages fuel pgdir (address g i) n (k * 2 ^ 12) perm s ≡ ok r)
        × Mapped s r u i n k perm
  unfolding map_pages ppn
  map_pages-Mapped fuel i zero k perm s w l a b = (
    s,
    refl,
    record { entries = λ j h. absurd (omega arith); rest = λ a j h. refl; pages = refl },
  )
  map_pages-Mapped fuel i (suc n) k perm s w l a b =
      let pte = pte_create k (with_valid perm) in
      let (r, run, m) =
        map_pages-Mapped fuel (suc i) n (suc k) perm (put_pte u i pte s) (Region-put i pte s w)
          (omega arith) a (omega (arith, b)) in
      let la : (address g i + 2 ^ 12) % 2 ^ 64 ≡ address g (suc i) = omega (arith, a, l) in
      let pa : (k * 2 ^ 12 + 2 ^ 12) % 2 ^ 64 ≡ suc k * 2 ^ 12 = omega (arith, b) in
      let number : k * 2 ^ 12 / 2 ^ 12 ≡ k = omega arith in
      (
        r,
        rw (get_pte-Region fuel i s w (omega arith)) (rw (la, pa, number) run),
        Mapped-step s r u i n k perm m,
      )

-- The address `la` lies as far into its page as `pa`, the tables for `la` are there, and the third
-- has an entry for every page that the `size` bytes from `la` on touch. Then `boot_map_segment`
-- returns: these entries, and no others, have changed, each maps the physical page as many pages
-- behind that of `pa`, with the rights `perm` and valid, and no page has been allocated.
pub boot_map_segment-Mapped :
    (fuel pgdir t u la size pa perm : ℕ) (s : Vm)
    → Region s pgdir (la / 2 ^ 21) t u
    → la % 2 ^ 12 ≡ pa % 2 ^ 12
    → la % 2 ^ 21 + size ≤ 2 ^ 21
    → la / 2 ^ 21 * 2 ^ 21 + 2 ^ 21 < 2 ^ 64
    → pa + 2 ^ 21 < 2 ^ 64
    → (r : Vm) × (boot_map_segment fuel pgdir la size pa perm s ≡ ok r)
      × Mapped s r u (la / 2 ^ 12 % 2 ^ 9) ((size + la % 2 ^ 12 + 4095) / 2 ^ 12) (pa / 2 ^ 12) perm
unfolding boot_map_segment pgoff roundup rounddown
boot_map_segment-Mapped fuel pgdir t u la size pa perm s w o l a b =
    let g = la / 2 ^ 21 in
    let i = la / 2 ^ 12 % 2 ^ 9 in
    let n = (size + la % 2 ^ 12 + 4095) / 2 ^ 12 in
    let (r, run, m) =
      map_pages-Mapped pgdir g t u fuel i n (pa / 2 ^ 12) perm s w (omega (arith, l))
        (omega (arith, a)) (omega (arith, b, l)) in
    let same : (la % 2 ^ 12 == pa % 2 ^ 12) ≡ true = ground (arith, o) in
    let start : la - la % 2 ^ 12 ≡ address g i = omega arith in
    let target : pa - pa % 2 ^ 12 ≡ pa / 2 ^ 12 * 2 ^ 12 = omega arith in
    let count : roundup (size + la % 2 ^ 12) / 2 ^ 12 ≡ n = omega (arith, l) in
    (r, rw (same, start, target, count) run, m)
