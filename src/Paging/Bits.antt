-- ===== src/Paging/Bits.antt =====
-- The `|` of the page table entries of kern/mm/pmm.h at variables.
use Prim.Native.Nat.{max, digits, bit_or, bit_or-bitwise}
use os_lab.Base.{ℕ, zero, suc, ◌+◌, ◌*◌, ◌/◌, ◌%◌, ◌^◌, ◌≤◌, ◌<◌, ◌≡◌, refl, ap, ◌∙◌, arith}

-- The digits of `a | b`, with a count of those to go.
abbrev or_digits : ℕ → ℕ → ℕ → ℕ
or_digits n a b = digits (λ c. c) max n a b

or_digits_fuel : (n k a b : ℕ) → a ≤ n → a ≤ k → or_digits n a b ≡ or_digits k a b
or_digits_fuel zero zero a b p q = refl
or_digits_fuel zero (suc k) zero b p q = refl
or_digits_fuel zero (suc k) (suc a) b p q = absurd (omega arith)
or_digits_fuel (suc n) zero zero b p q = refl
or_digits_fuel (suc n) zero (suc a) b p q = absurd (omega arith)
or_digits_fuel (suc n) (suc k) zero b p q = refl
or_digits_fuel (suc n) (suc k) (suc a) b p q =
    omega (arith, or_digits_fuel n k (suc a / 2) (b / 2) (omega arith) (omega arith))

zero-bit_or : (b : ℕ) → bit_or 0 b ≡ b
zero-bit_or b = bit_or-bitwise 0 b

bit_or_step :
    (a b : ℕ) → bit_or (suc a) b ≡ bit_or (suc a / 2) (b / 2) * 2 + max (suc a % 2) (b % 2)
bit_or_step a b = omega (
  arith,
  bit_or-bitwise (suc a) b,
  bit_or-bitwise (suc a / 2) (b / 2),
  or_digits_fuel a (suc a / 2) (suc a / 2) (b / 2) (omega arith) (omega arith),
)

-- The larger of two binary digits.
max_bits : (x y : ℕ) → x < 2 → y < 2 → (max x y < 2) × (x ≤ max x y) × (y ≤ max x y)
max_bits zero zero h k = (omega arith, omega arith, omega arith)
max_bits zero (suc zero) h k = (omega arith, omega arith, omega arith)
max_bits (suc zero) zero h k = (omega arith, omega arith, omega arith)
max_bits (suc zero) (suc zero) h k = (omega arith, omega arith, omega arith)
max_bits (suc (suc x)) y h k = absurd (omega (arith, h))
max_bits x (suc (suc y)) h k = absurd (omega (arith, k))

max_zero : (x : ℕ) → x < 2 → max x 0 ≡ x
max_zero zero h = refl
max_zero (suc zero) h = refl
max_zero (suc (suc x)) h = absurd (omega (arith, h))

bit_or-half : (a b : ℕ) → bit_or a b / 2 ≡ bit_or (a / 2) (b / 2)
bit_or-half zero b = omega (arith, zero-bit_or b, zero-bit_or (b / 2))
bit_or-half (suc a) b =
    omega (arith, bit_or_step a b, max_bits (suc a % 2) (b % 2) (omega arith) (omega arith))

-- `|` does not clear the lowest bit.
pub bit_or-odd : (a b : ℕ) → a % 2 ≡ 1 → bit_or a b % 2 ≡ 1
bit_or-odd zero b h = absurd (omega (arith, h))
bit_or-odd (suc a) b h =
    omega (arith, h, bit_or_step a b, max_bits (suc a % 2) (b % 2) (omega arith) (omega arith))

pub bit_or-odd_right : (a b : ℕ) → b % 2 ≡ 1 → bit_or a b % 2 ≡ 1
bit_or-odd_right zero b h = omega (arith, h, zero-bit_or b)
bit_or-odd_right (suc a) b h =
    omega (arith, h, bit_or_step a b, max_bits (suc a % 2) (b % 2) (omega arith) (omega arith))

quarter : (x : ℕ) → x / 4 ≡ x / 2 / 2
quarter x = omega arith

bit_or-quarter : (a b : ℕ) → bit_or a b / 4 ≡ bit_or (a / 4) (b / 4)
bit_or-quarter a b =
    quarter (bit_or a b)
    ∙ ap (λ x. x / 2) (bit_or-half a b)
    ∙ bit_or-half (a / 2) (b / 2)
    ∙ rw (quarter a, quarter b) refl

sixteenth : (x : ℕ) → x / 32 ≡ x / 4 / 4 / 2
sixteenth x = omega arith

bit_or-shift_5 : (a b : ℕ) → bit_or a b / 32 ≡ bit_or (a / 32) (b / 32)
bit_or-shift_5 a b =
    sixteenth (bit_or a b)
    ∙ ap (λ x. x / 4 / 2) (bit_or-quarter a b)
    ∙ ap (λ x. x / 2) (bit_or-quarter (a / 4) (b / 4))
    ∙ bit_or-half (a / 4 / 4) (b / 4 / 4)
    ∙ rw (sixteenth a, sixteenth b) refl

by_1024 : (x : ℕ) → x / 2 ^ 10 ≡ x / 32 / 32
by_1024 x = omega arith

-- Shifting by ten bits goes through `|`.
pub bit_or-shift : (a b : ℕ) → bit_or a b / 2 ^ 10 ≡ bit_or (a / 2 ^ 10) (b / 2 ^ 10)
bit_or-shift a b =
    by_1024 (bit_or a b)
    ∙ ap (λ x. x / 32) (bit_or-shift_5 a b)
    ∙ bit_or-shift_5 (a / 32) (b / 32)
    ∙ rw (by_1024 a, by_1024 b) refl

bit_or-zero_fuel : (n a : ℕ) → a ≤ n → bit_or a 0 ≡ a
bit_or-zero_fuel n zero h = zero-bit_or 0
bit_or-zero_fuel zero (suc a) h = absurd (omega (arith, h))
bit_or-zero_fuel (suc n) (suc a) h = omega (
  arith,
  bit_or_step a 0,
  max_zero (suc a % 2) (omega arith),
  bit_or-zero_fuel n (suc a / 2) (omega (arith, h)),
)

pub bit_or-zero : (a : ℕ) → bit_or a 0 ≡ a
bit_or-zero a = bit_or-zero_fuel a a (omega arith)
