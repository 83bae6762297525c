-- ===== src/Dtb/Words.antt =====
-- The byte order of kern/driver/dtb.c: a load and its conversion read the high byte first.
use os_lab.Base.{ℕ, ◌+◌, ◌*◌, ◌/◌, ◌%◌, ◌^◌, ◌<◌, ◌≡◌, arith}
use os_lab.Dtb.{load32, load64, fdt32_to_cpu, fdt64_to_cpu}

-- Every address holds a byte.
abbrev pub IsBytes : (ℕ → ℕ) → Type 0
IsBytes m = (p : ℕ) → m p < 2 ^ 8

-- The words at `p`, high byte first.
unfoldable pub big32 : (ℕ → ℕ) → ℕ → ℕ
big32 m p = m p * 2 ^ 24 + m (p + 1) * 2 ^ 16 + m (p + 2) * 2 ^ 8 + m (p + 3)

unfoldable pub big64 : (ℕ → ℕ) → ℕ → ℕ
big64 m p = big32 m p * 2 ^ 32 + big32 m (p + 4)

pub fdt32_to_cpu-load32 : (m : ℕ → ℕ) (p : ℕ) → IsBytes m → fdt32_to_cpu (load32 m p) ≡ big32 m p
unfolding fdt32_to_cpu load32 big32
fdt32_to_cpu-load32 m p b = omega (arith, b p, b (p + 1), b (p + 2), b (p + 3))

load32-lt : (m : ℕ → ℕ) (p : ℕ) → IsBytes m → load32 m p < 2 ^ 32
unfolding load32
load32-lt m p b = omega (arith, b p, b (p + 1), b (p + 2), b (p + 3))

pub fdt64_to_cpu-load64 : (m : ℕ → ℕ) (p : ℕ) → IsBytes m → fdt64_to_cpu (load64 m p) ≡ big64 m p
unfolding fdt64_to_cpu load64 big64
fdt64_to_cpu-load64 m p b =
    rw (low_half, high_half, fdt32_to_cpu-load32 m p b, fdt32_to_cpu-load32 m (p + 4) b)
  where
    low_half : (load32 m p + load32 m (p + 4) * 2 ^ 32) % 2 ^ 32 ≡ load32 m p
    low_half = omega (arith, load32-lt m p b)

    high_half : (load32 m p + load32 m (p + 4) * 2 ^ 32) / 2 ^ 32 % 2 ^ 32 ≡ load32 m (p + 4)
    high_half = omega (arith, load32-lt m p b, load32-lt m (p + 4) b)

-- Twice the conversion is the word again.
pub fdt32_to_cpu_twice : (x : ℕ) → x < 2 ^ 32 → fdt32_to_cpu (fdt32_to_cpu x) ≡ x
unfolding fdt32_to_cpu
fdt32_to_cpu_twice x h = omega arith
