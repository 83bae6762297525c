-- ===== src/Tests/Strings.antt =====
-- libs/string.c at a memory that holds two strings.
use os_lab.Base.{
  ℕ, ◌-◌, ◌^◌, ◌≡◌, ◌↔◌, refl, List, [], ◌∷◌, if◌then◌else◌, ◌==◌, ok, pos, ℤ, arith, literal,
  codes,
}
use os_lab.CString.{strcmp, memmove}
use os_lab.CString.Copy.{moved, memmove-moved}
use os_lab.CString.Strings.{IsString}
use os_lab.CString.Number.{strtol, digit_of, skip_blanks, read_sign, read_prefix, read_digits}
use os_lab.CString.Compare.{strcmp_iff}

-- The bytes 7, 8, 9, 0 from the address 10 on, and 7, 8, 0 from 20 on.
abbrev memory : ℕ → ℕ
memory p =
    if p == 10
    then 7
    else if p == 11
    then 8
    else if p == 12
    then 9
    else if p == 20
    then 7
    else if p == 21
    then 8
    else 0

seven : IsString memory 10 (7 ∷ 8 ∷ 9 ∷ [])
seven = (refl, omega arith, (refl, omega arith, (refl, omega arith, refl)))

short : IsString memory 20 (7 ∷ 8 ∷ [])
short = (refl, omega arith, (refl, omega arith, refl))

strcmp_iff_example :
    (r : ℤ) × (strcmp 4 10 20 memory ≡ ok r)
    × ((r ≡ pos 0) ↔ ◌≡◌ {A = List ℕ} (7 ∷ 8 ∷ 9 ∷ []) (7 ∷ 8 ∷ []))
strcmp_iff_example =
    strcmp_iff memory 4 10 20 (7 ∷ 8 ∷ 9 ∷ []) (7 ∷ 8 ∷ []) seven short (omega arith)

-- The ranges overlap; the upper one gets the bytes of the lower one.
memmove-moved_example : memmove 11 10 3 memory 13 ≡ moved 11 10 3 memory 13
memmove-moved_example = memmove-moved 11 10 3 memory 13

memmove_test : memmove 11 10 3 memory 13 ≡ 9
unfolding memmove
memmove_test = refl

-- The text " -0x2A".
abbrev number : ℕ → ℕ
number = literal (codes " -0x2A")

strtol_test : strtol 5 0 0 number ≡ ok (2 ^ 64 - 42, 6)
unfolding strtol skip_blanks read_sign read_prefix read_digits digit_of
strtol_test = refl
