-- ===== src/Print/Digits.antt =====
-- `printnum` of libs/printfmt.c: the digits of a number, and the padding in front of them.
use native.Mathlib.Nat.{
  pow-suc, div-add-mod', div-lt_iff_lt-mul, mod-lt, le-div_iff_mul-le, mod-eq_of_lt,
}
use mathlib.Core.List.{append_assoc, map-append}
use os_lab.Base.{
  ℕ, zero, suc, ◌+◌, ◌-◌, ◌*◌, ◌/◌, ◌%◌, ◌^◌, ◌<◌, ◌≤◌, ◌≡◌, refl, sym, ◌∙◌, ap, List, [], ◌∷◌,
  ◌++◌, map, length, length-append, true, false, ok, leb, arith, ℤ, pos, negsuc, Bool-cases, inl,
  inr,
}
use os_lab.CString.Number.Value.{value}
use os_lab.Print.{printnum, replicate, rounds, decrement, digit_char}

abbrev pub AllBelow : ℕ → List ℕ → Type 0
AllBelow base [] = Unit {0}
AllBelow base (d ∷ ds) = (d < base) × AllBelow base ds

abbrev pub first : List ℕ → ℕ
first [] = 0
first (d ∷ ds) = d

-- The digits of `num`: none too many in front.
pub record IsNumeral (base num : ℕ) (ds : List ℕ) : Type 0 where
  pub worth : value base 0 ds ≡ num
  pub below : AllBelow base ds
  pub nonempty : 0 < length ds
  pub lead : 0 < num → 0 < first ds
  pub short : num < base → length ds ≡ 1

value-snoc :
    (base val d : ℕ) (ds : List ℕ) → value base val (ds ++ d ∷ []) ≡ value base val ds * base + d
value-snoc base val d [] = refl
value-snoc base val d (x ∷ ds) = value-snoc base (val * base + x) d ds

AllBelow-snoc :
    (base d : ℕ) (ds : List ℕ) → d < base → AllBelow base ds → AllBelow base (ds ++ d ∷ [])
AllBelow-snoc base d [] h b = (h, tt)
AllBelow-snoc base d (x ∷ ds) h b = (b.0, AllBelow-snoc base d ds h b.1)

first-snoc : (d : ℕ) (ds : List ℕ) → 0 < length ds → first (ds ++ d ∷ []) ≡ first ds
first-snoc d [] h = absurd (omega arith)
first-snoc d (x ∷ ds) h = refl

IsNumeral-snoc :
    (base num : ℕ) (ds : List ℕ)
    → 2 ≤ base
    → base ≤ num
    → IsNumeral base (num / base) ds
    → IsNumeral base num (ds ++ (num % base) ∷ [])
IsNumeral-snoc base num ds b l h = record {
  worth =
      value-snoc base 0 (num % base) ds
      ∙ ap (λ q. q * base + num % base) h.worth
      ∙ div-add-mod' num base;
  below = AllBelow-snoc base (num % base) ds (mod-lt num (omega arith)) h.below;
  nonempty = omega (arith, length-append ds ((num % base) ∷ []));
  lead = λ p. omega (arith, first-snoc (num % base) ds h.nonempty, h.lead quotient);
  short = λ p. absurd (omega arith);
}
  where
    quotient : 0 < num / base
    quotient = (le-div_iff_mul-le {k = base} {x = 1} {y = num} (omega arith)).1 (omega arith)

rounds-decrement : (w : ℤ) → rounds (decrement w) ≡ rounds w - 1
rounds-decrement (pos zero) = refl
rounds-decrement (pos (suc n)) = omega arith
rounds-decrement (negsuc n) = refl

-- The output for the digits `ds`.
abbrev pub padded : ℤ → ℕ → List ℕ → List ℕ
padded width padc ds = replicate (rounds width - length ds) padc ++ map digit_char ds

padded-snoc :
    (width : ℤ) (padc d : ℕ) (ds : List ℕ)
    → padded (decrement width) padc ds ++ digit_char d ∷ [] ≡ padded width padc (ds ++ d ∷ [])
padded-snoc width padc d ds =
    rw (rounds-decrement width, append_assoc, sym (map-append digit_char ds (d ∷ [])), count)
  where
    count : rounds width - 1 - length ds ≡ rounds width - length (ds ++ d ∷ [])
    count = omega (arith, length-append ds (d ∷ []))

printnum_last :
    (fuel num base : ℕ) (width : ℤ) (padc : ℕ)
    → leb base num ≡ false
    → printnum (suc fuel) num base width padc ≡ ok (padded width padc ((num % base) ∷ []))
unfolding printnum
printnum_last fuel num base width padc e = rw (printnum, e)

printnum_more :
    (fuel num base : ℕ) (width : ℤ) (padc : ℕ) (xs : List ℕ)
    → leb base num ≡ true
    → printnum fuel (num / base) base (decrement width) padc ≡ ok xs
    → printnum (suc fuel) num base width padc ≡ ok (xs ++ digit_char (num % base) ∷ [])
unfolding printnum
printnum_more fuel num base width padc xs e r = rw (printnum, e, r)

IsNumeral-one : (base num : ℕ) → num < base → IsNumeral base num ((num % base) ∷ [])
IsNumeral-one base num h = record {
  worth = omega (arith, mod-eq_of_lt h);
  below = (omega (arith, mod-eq_of_lt h), tt);
  nonempty = omega arith;
  lead = λ p. omega (arith, mod-eq_of_lt h);
  short = λ p. refl;
}

-- Dividing by the base at least halves.
div-lt_half : (num base bound : ℕ) → 2 ≤ base → num < bound * 2 → num / base < bound
div-lt_half num base bound b h =
    (div-lt_iff_lt-mul {k = base} {x = num} {y = bound} (omega arith)).1 (grind (arith, h, b))

pub printnum-IsNumeral :
    (fuel num base : ℕ) (width : ℤ) (padc : ℕ)
    → 2 ≤ base
    → base ≤ 16
    → num < 2 ^ suc fuel
    → (ds : List ℕ) × (printnum (suc fuel) num base width padc ≡ ok (padded width padc ds))
      × IsNumeral base num ds
printnum-IsNumeral zero num base width padc b top h = (
  (num % base) ∷ [],
  printnum_last 0 num base width padc (ground arith),
  IsNumeral-one base num (omega arith),
)
printnum-IsNumeral (suc fuel) num base width padc b top h = elim (Bool-cases (leb base num)) [
  | inl e ↦
      let (ds, run, n) =
        printnum-IsNumeral fuel (num / base) base (decrement width) padc b top
          (div-lt_half num base (2 ^ suc fuel) b (omega (arith, pow-suc 2 (suc fuel)))) in
      (
        ds ++ (num % base) ∷ [],
        printnum_more (suc fuel) num base width padc (padded (decrement width) padc ds) e run
            ∙ ap ok (padded-snoc width padc (num % base) ds),
        IsNumeral-snoc base num ds b (ground (arith, e)) n,
      )
  | inr e ↦ (
    (num % base) ∷ [],
    printnum_last (suc fuel) num base width padc e,
    IsNumeral-one base num (ground (arith, e)),
  )
]
