-- ===== src/CString/Number/Value.antt =====
-- What `strtol` of libs/string.c makes of the text of a number.
use native.Mathlib.Nat.{le-mul_of_pos_right}
use os_lab.Base.{
  ◌⊎◌, ℕ, zero, suc, ◌+◌, ◌-◌, ◌*◌, ◌%◌, ◌^◌, ◌<◌, ◌≤◌, ◌≡◌, ◌≢◌, refl, sym, subst, ◌∙◌, ap, List,
  [], ◌∷◌, length, Bool, true, false, Option, none, some, Run, ok, leb, ◌==◌, ◌||◌, if◌then◌else◌,
  arith, inl, inr, Bool-cases, ltb, ◌&&◌,
}
use os_lab.CString.Number.{skip_blanks, read_sign, read_prefix, digit_of, read_digits, strtol}

-- The character `c` is the digit `d`: '0' to '9', and then the letters, small or capital.
abbrev pub IsDigit : ℕ → ℕ → Type 0
IsDigit c d =
    ((d < 10) × (c ≡ b'0' + d))
    ⊎ ((10 ≤ d) × (d < 36) × ((c + 10 ≡ b'a' + d) ⊎ (c + 10 ≡ b'A' + d)))

-- The digits `ds` of a base stand at `s`, and no further one behind them.
abbrev pub HasDigits : (ℕ → ℕ) → ℕ → ℕ → List ℕ → Type 0
HasDigits m base s [] = (d : ℕ) → IsDigit (m s) d → base ≤ d
HasDigits m base s (d ∷ ds) = IsDigit (m s) d × (d < base) × HasDigits m base (s + 1) ds

digit_of-IsDigit : (c d : ℕ) → IsDigit c d → digit_of c ≡ some d
unfolding digit_of
digit_of-IsDigit c d (inl (l, e)) = ground (arith, l, e)
digit_of-IsDigit c d (inr (l, h, inl e)) = ground (arith, l, h, e)
digit_of-IsDigit c d (inr (l, h, inr e)) = ground (arith, l, h, e)

digit_of-back : (c d : ℕ) → digit_of c ≡ some d → IsDigit c d
unfolding digit_of
digit_of-back c d e = elim (Bool-cases (ltb d 10)) [
  | inl l ↦ inl (ground (arith, l), ground (arith, l, e))
  | inr h ↦ elim (Bool-cases (leb 97 c)) [
    | inl s ↦ inr (ground (arith, h), ground (arith, h, s, e), inl (ground (arith, h, s, e)))
    | inr b ↦ inr (ground (arith, h), ground (arith, h, b, e), inr (ground (arith, h, b, e)))
  ]
]

-- The number that the digits `ds` make behind those of `val`.
abbrev pub value : ℕ → ℕ → List ℕ → ℕ
value base val [] = val
value base val (d ∷ ds) = value base (val * base + d) ds

-- `n` blanks stand at `s`.
abbrev pub HasBlanks : (ℕ → ℕ) → ℕ → ℕ → Type 0
HasBlanks m s zero = Unit {0}
HasBlanks m s (suc n) = ((m s == 32 || m s == 9) ≡ true) × HasBlanks m (s + 1) n

le-mul : (v b : ℕ) → 1 ≤ b → v ≤ v * b
le-mul v b h = le-mul_of_pos_right v h

Option-cases : (x : Option ℕ) → (x ≡ none) ⊎ ((d : ℕ) × (x ≡ some d))
Option-cases none = inl refl
Option-cases (some d) = inr (d, refl)

at_end : (a b val : ℕ) → a ≡ b → ◌≡◌ {A = Run (ℕ × ℕ)} (ok (val, a)) (ok (val, b))
at_end a b val e = ap (λ x. ok (val, x)) e

value-grows : (base val : ℕ) (ds : List ℕ) → 1 ≤ base → val ≤ value base val ds
value-grows base val [] h = omega arith
value-grows base val (d ∷ ds) h =
    omega (arith, value-grows base (val * base + d) ds h, le-mul val base h)

read_digits-value :
    (fuel base val s : ℕ) (m : ℕ → ℕ) (ds : List ℕ)
    → length ds < fuel
    → 1 ≤ base
    → HasDigits m base s ds
    → value base val ds < 2 ^ 64
    → read_digits fuel base val s m ≡ ok (value base val ds, s + length ds)
unfolding read_digits
read_digits-value zero base val s m ds f b h l = absurd (omega arith)
read_digits-value (suc fuel) base val s m [] f b h l = elim (Option-cases (digit_of (m s))) [
  | inl e ↦ rw (read_digits, e) (at_end s (s + 0) val (omega arith))
  | inr (d, e) ↦
      rw (read_digits, e, too_large d (h d (digit_of-back (m s) d e)))
        (at_end s (s + 0) val (omega arith))
]
  where
    too_large : (d : ℕ) → base ≤ d → leb base d ≡ true
    too_large d k = ground arith
read_digits-value (suc fuel) base val s m (d ∷ ds) f b h l =
    rw (read_digits, digit_of-IsDigit (m s) d h.0, fits, small)
      (read_digits-value fuel base (val * base + d) (s + 1) m ds (omega arith) b h.2 l
        ∙ at_end (s + 1 + length ds) (s + suc (length ds)) _ (omega arith))
  where
    fits : leb base d ≡ false
    fits = ground (arith, h.1)

    small : (val * base + d) % 2 ^ 64 ≡ val * base + d
    small = omega (arith, value-grows base (val * base + d) ds b, l)

skip_blanks-lem :
    (fuel s n : ℕ) (m : ℕ → ℕ)
    → n < fuel
    → HasBlanks m s n
    → (m (s + n) == 32 || m (s + n) == 9) ≡ false
    → skip_blanks fuel s m ≡ ok (s + n)
unfolding skip_blanks
skip_blanks-lem zero s n m f h e = absurd (omega arith)
skip_blanks-lem (suc fuel) s zero m f h e = rw here (ap ok (omega arith))
  where
    here : (m s == 32 || m s == 9) ≡ false
    here = subst (λ k. (m k == 32 || m k == 9) ≡ false) (omega arith) e
skip_blanks-lem (suc fuel) s (suc n) m f h e =
    rw h.0 (skip_blanks-lem fuel (s + 1) n m (omega arith) h.1 there ∙ ap ok (omega arith))
  where
    there : (m (s + 1 + n) == 32 || m (s + 1 + n) == 9) ≡ false
    there = subst (λ k. (m k == 32 || m k == 9) ≡ false) (omega arith) e

-- The sign of a number.
pub data Sign : Type 0 where
  bare : Sign
  plus : Sign
  minus : Sign

abbrev pub is_minus : Sign → Bool
is_minus bare = false
is_minus plus = false
is_minus minus = true

-- The sign stands at `p`; where there is none, no blank does either.
abbrev pub HasSign : Sign → (ℕ → ℕ) → ℕ → Type 0
HasSign bare m p = (m p ≢ 32) × (m p ≢ 9) × (m p ≢ b'+') × (m p ≢ b'-')
HasSign plus m p = m p ≡ b'+'
HasSign minus m p = m p ≡ b'-'

abbrev pub behind_sign : Sign → ℕ → ℕ
behind_sign bare p = p
behind_sign plus p = p + 1
behind_sign minus p = p + 1

-- What is given for a base and stands at `p` makes the digits from `q` on those of base `b`.
pub data Prefix (m : ℕ → ℕ) (base p b q : ℕ) : Type 0 where
  -- A base is given, and is that of the digits.
  given : base ≢ 0 → base ≢ 16 → b ≡ base → q ≡ p → Prefix m base p b q
  given_hex : base ≡ 16 → m p ≢ b'0' ⊎ m (p + 1) ≢ b'x' → b ≡ 16 → q ≡ p → Prefix m base p b q
  -- "0x" stands in front of the digits.
  hex :
      (base ≡ 0) ⊎ (base ≡ 16)
      → m p ≡ b'0'
      → m (p + 1) ≡ b'x'
      → b ≡ 16
      → q ≡ p + 2
      → Prefix m base p b q
  -- No base is given, and the "0" in front means octal.
  octal : base ≡ 0 → m p ≡ b'0' → m (p + 1) ≢ b'x' → b ≡ 8 → q ≡ p + 1 → Prefix m base p b q
  decimal : base ≡ 0 → m p ≢ b'0' → b ≡ 10 → q ≡ p → Prefix m base p b q

read_sign-lem :
    (sign : Sign) (m : ℕ → ℕ) (p : ℕ)
    → HasSign sign m p
    → ((m p == 32 || m p == 9) ≡ false) × (read_sign p m ≡ (is_minus sign, behind_sign sign p))
unfolding read_sign
read_sign-lem bare m p h =
    let no_blank : (m p == 32 || m p == 9) ≡ false = ground (arith, h.0, h.1) in
    let no_plus : (m p == 43) ≡ false = ground (arith, h.2) in
    let no_minus : (m p == 45) ≡ false = ground (arith, h.3) in
    (no_blank, rw (no_plus, no_minus) refl)
read_sign-lem plus m p h = (rw h refl, rw h refl)
read_sign-lem minus m p h = (rw h refl, rw h refl)

pair_of : {a b c d : ℕ} → a ≡ b → c ≡ d → ◌≡◌ {A = ℕ × ℕ} (a, c) (b, d)
pair_of p q = λ i. (p i, q i)

read_prefix-Prefix :
    (m : ℕ → ℕ) (base p b q : ℕ) → Prefix m base p b q → read_prefix base p m ≡ (b, q)
unfolding read_prefix
read_prefix-Prefix m base p b q (given z x e f) =
    let no_zero : (base == 0) ≡ false = ground (arith, z) in
    let no_hex : (base == 16) ≡ false = ground (arith, x) in
    rw (no_zero, no_hex) (pair_of (sym e) (sym f))
read_prefix-Prefix m base p b q (given_hex x (inl n) e f) =
    let no : (m p == 48) ≡ false = ground (arith, n) in rw (x, no) (pair_of (sym e) (sym f))
read_prefix-Prefix m base p b q (given_hex x (inr n) e f) =
    let no : (m p == 48 && m (p + 1) == 120) ≡ false = ground (arith, n) in
    rw (x, no) (pair_of (sym e) (sym f))
read_prefix-Prefix m base p b q (hex (inl z) k l e f) = rw (z, k, l) (pair_of (sym e) (sym f))
read_prefix-Prefix m base p b q (hex (inr z) k l e f) = rw (z, k, l) (pair_of (sym e) (sym f))
read_prefix-Prefix m base p b q (octal z k l e f) =
    let no : (m (p + 1) == 120) ≡ false = ground (arith, l) in
    rw (z, k, no) (pair_of (sym e) (sym f))
read_prefix-Prefix m base p b q (decimal z k e f) =
    let no : (m p == 48) ≡ false = ground (arith, k) in rw (z, no) (pair_of (sym e) (sym f))

Prefix-positive : (m : ℕ → ℕ) (base p b q : ℕ) → Prefix m base p b q → 1 ≤ b
Prefix-positive m base p b q (given z x e f) = omega (arith, z, e)
Prefix-positive m base p b q (given_hex x n e f) = omega (arith, e)
Prefix-positive m base p b q (hex z k l e f) = omega (arith, e)
Prefix-positive m base p b q (octal z k l e f) = omega (arith, e)
Prefix-positive m base p b q (decimal z k e f) = omega (arith, e)

pub strtol-value :
    (fuel s base n : ℕ) (sign : Sign) (b q : ℕ) (m : ℕ → ℕ) (ds : List ℕ)
    → n < fuel
    → length ds < fuel
    → HasBlanks m s n
    → HasSign sign m (s + n)
    → Prefix m base (behind_sign sign (s + n)) b q
    → HasDigits m b q ds
    → value b 0 ds < 2 ^ 63
    → strtol fuel s base m
      ≡ ok (
        (if is_minus sign then (2 ^ 64 - value b 0 ds) % 2 ^ 64 else value b 0 ds),
        q + length ds,
      )
unfolding strtol
strtol-value fuel s base n sign b q m ds f g k i x h l =
    let (stop, signed) = read_sign-lem sign m (s + n) i in
    rw (
      skip_blanks-lem fuel s n m f k stop,
      signed,
      read_prefix-Prefix m base (behind_sign sign (s + n)) b q x,
      read_digits-value fuel b 0 q m ds g (Prefix-positive m base (behind_sign sign (s + n)) b q x)
          h (omega (arith, l)),
    )
