-- ===== src/CString/Number.antt =====
-- `strtol` of libs/string.c. The result is the 64-bit pattern of the `long`, with the address that
-- goes to `endptr`.
use os_lab.Base.{
  ℕ, zero, suc, ◌+◌, ◌-◌, ◌*◌, ◌/◌, ◌%◌, ◌^◌, Bool, true, false, Option, none, some, Run, ok, panic,
  spin, ltb, leb, ◌==◌, ◌&&◌, ◌||◌, not, if◌then◌else◌, ◌>>=◌, ◌>>◌,
}
pub mod Value

unfoldable pub skip_blanks : ℕ → ℕ → (ℕ → ℕ) → Run ℕ
skip_blanks zero s m = spin
skip_blanks (suc fuel) s m =
    let on = skip_blanks fuel (s + 1) m in if m s == 32 || m s == 9 then on else ok s

-- The sign: whether it is a minus, and the address behind it.
unfoldable pub read_sign : ℕ → (ℕ → ℕ) → Bool × ℕ
read_sign s m =
    if m s == 43 then (false, s + 1) else if m s == 45 then (true, s + 1) else (false, s)

-- The prefix "0x" or "0": the base, and the address behind it.
unfoldable pub read_prefix : ℕ → ℕ → (ℕ → ℕ) → ℕ × ℕ
read_prefix base s m =
    if (base == 0 || base == 16) && (m s == 48 && m (s + 1) == 120)
    then (16, s + 2)
    else if base == 0 && m s == 48
    then (8, s + 1)
    else if base == 0
    then (10, s)
    else (base, s)

-- The value of the digit with code `c`.
unfoldable pub digit_of : ℕ → Option ℕ
digit_of c =
    if leb 48 c && leb c 57
    then some (c - 48)
    else if leb 97 c && leb c 122
    then some (c - 97 + 10)
    else if leb 65 c && leb c 90
    then some (c - 65 + 10)
    else none

unfoldable pub read_digits : ℕ → ℕ → ℕ → ℕ → (ℕ → ℕ) → Run (ℕ × ℕ)
read_digits zero base val s m = spin
read_digits (suc fuel) base val s m = elim (digit_of (m s)) [
  | none ↦ ok (val, s)
  | some dig ↦
      let on = read_digits fuel base ((val * base + dig) % 2 ^ 64) (s + 1) m in
      if leb base dig then ok (val, s) else on
]

unfoldable pub strtol : ℕ → ℕ → ℕ → (ℕ → ℕ) → Run (ℕ × ℕ)
strtol fuel s base m = do
  t ← skip_blanks fuel s m
  let (neg, u) = read_sign t m
  let (b, v) = read_prefix base u m
  (val, end) ← read_digits fuel b 0 v m
  ok ((if neg then (2 ^ 64 - val) % 2 ^ 64 else val), end)
