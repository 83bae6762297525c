-- ===== src/CString/Copy.antt =====
-- The functions of libs/string.c that write memory, against what they should leave in each byte.
use os_lab.Base.{
  ℕ, zero, suc, ◌+◌, ◌-◌, ◌≤◌, ◌≡◌, refl, ◌∙◌, ◌⊎◌, inl, inr, true, false, ltb, leb, ◌==◌, ◌&&◌,
  if◌then◌else◌, arith, Bool-cases,
}
use os_lab.Links.{update}
use os_lab.CString.{memmove, copy_up, copy_down}

-- The bytes from `dst` on are the `n` bytes that stood at `src`, the others are as they were.
abbrev pub moved : ℕ → ℕ → ℕ → (ℕ → ℕ) → ℕ → ℕ
moved dst src n m q = if leb dst q && ltb q (dst + n) then m (src + (q - dst)) else m q

-- One byte moved upwards, and the rest after it.
moved-up :
    (d s n : ℕ) (m : ℕ → ℕ) (q : ℕ)
    → (d ≤ s) ⊎ (s + suc n ≤ d)
    → moved (d + 1) (s + 1) n (update m d (m s)) q ≡ moved d s (suc n) m q
moved-up d s n m q h = elim (Bool-cases (leb (d + 1) q && ltb q (d + 1 + n))) [
  | inl inside ↦
      let at : s + 1 + (q - (d + 1)) ≡ s + (q - d) = ground arith in
      let ne : (s + (q - d) == d) ≡ false = ground arith in
      let whole : (leb d q && ltb q (d + suc n)) ≡ true = ground arith in
      rw (inside, whole, at, ne) refl
  | inr outside ↦ elim (Bool-cases (q == d)) [
    | inl here ↦
        let at : s + (q - d) ≡ s = ground arith in
        let whole : (leb d q && ltb q (d + suc n)) ≡ true = ground arith in
        rw (outside, whole, here, at) refl
    | inr other ↦
        let whole : (leb d q && ltb q (d + suc n)) ≡ false = ground arith in
        rw (outside, whole, other) refl
  ]
]

pub copy_up-moved :
    (d s n : ℕ) (m : ℕ → ℕ) (q : ℕ) → (d ≤ s) ⊎ (s + n ≤ d) → copy_up d s n m q ≡ moved d s n m q
unfolding copy_up
copy_up-moved d s zero m q h = ground arith
copy_up-moved d s (suc n) m q h =
    copy_up-moved (d + 1) (s + 1) n (update m d (m s)) q (apart h) ∙ moved-up d s n m q h
  where
    apart : (d ≤ s) ⊎ (s + suc n ≤ d) → (d + 1 ≤ s + 1) ⊎ (s + 1 + n ≤ d + 1)
    apart (inl a) = inl (omega arith)
    apart (inr a) = inr (omega arith)

-- One byte moved downwards, and the rest after it.
moved-down :
    (d s n : ℕ) (m : ℕ → ℕ) (q : ℕ)
    → s ≤ d
    → moved d s n (update m (d + n) (m (s + n))) q ≡ moved d s (suc n) m q
moved-down d s n m q h = elim (Bool-cases (leb d q && ltb q (d + n))) [
  | inl inside ↦
      let ne : (s + (q - d) == d + n) ≡ false = ground arith in
      let whole : (leb d q && ltb q (d + suc n)) ≡ true = ground arith in
      rw (inside, whole, ne) refl
  | inr outside ↦ elim (Bool-cases (q == d + n)) [
    | inl here ↦
        let at : s + (q - d) ≡ s + n = ground arith in
        let whole : (leb d q && ltb q (d + suc n)) ≡ true = ground arith in
        rw (outside, whole, here, at) refl
    | inr other ↦
        let whole : (leb d q && ltb q (d + suc n)) ≡ false = ground arith in
        rw (outside, whole, other) refl
  ]
]

copy_down-moved :
    (d s n : ℕ) (m : ℕ → ℕ) (q : ℕ) → s ≤ d → copy_down (d + n) (s + n) n m q ≡ moved d s n m q
unfolding copy_down
copy_down-moved d s zero m q h = ground arith
copy_down-moved d s (suc n) m q h =
    let to : d + suc n - 1 ≡ d + n = omega arith in
    let from : s + suc n - 1 ≡ s + n = omega arith in
    rw (to, from)
      (copy_down-moved d s n (update m (d + n) (m (s + n))) q h ∙ moved-down d s n m q h)

-- However the two ranges overlap, `memmove` moves the `n` bytes that stood at `src` to `dst`, and
-- leaves every other byte as it was.
pub memmove-moved :
    (dst src n : ℕ) (m : ℕ → ℕ) (q : ℕ) → memmove dst src n m q ≡ moved dst src n m q
unfolding memmove
memmove-moved dst src n m q = elim (Bool-cases (ltb src dst && ltb dst (src + n))) [
  | inl down ↦ rw down (copy_down-moved dst src n m q (ground arith))
  | inr up ↦ rw up (copy_up-moved dst src n m q (apart dst src n up))
]
  where
    apart :
        (dst src n : ℕ) → (ltb src dst && ltb dst (src + n)) ≡ false → (dst ≤ src) ⊎ (src + n ≤ dst)
    apart dst src n up = ground arith
