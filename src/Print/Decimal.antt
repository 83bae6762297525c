-- ===== src/Print/Decimal.antt =====
-- What `vprintfmt` of libs/printfmt.c prints for a signed number.
use native.Mathlib.Nat.{pow-le-pow_right, pow-suc, zero-sub}
use mathlib.Core.List.{append-nil}
use os_lab.Base.{
  ℕ, suc, ◌+◌, ◌-◌, ◌*◌, ◌%◌, ◌^◌, ◌<◌, ◌≤◌, ◌≡◌, subst, ap, List, [], ◌∷◌, ◌++◌, map, length, Bool,
  true, false, Run, ok, leb, ◌==◌, if◌then◌else◌, arith, negsuc, Bool-cases, inl, inr, codes,
}
use os_lab.CString.Number.Value.{value}
use os_lab.Print.{vprintfmt, convert, digit_char, put_signed}
use os_lab.Print.Escape.{Spec, default_spec, escape, read_flag, int_arg}
use os_lab.Print.Digits.{IsNumeral, padded, printnum-IsNumeral}
use os_lab.Print.Buffer.{HasBytes}

-- The digits of a number below 2^64 are at most 20.
mul_regroup : (p v d x : ℕ) → p * (v * 10 + d) ≤ x → p * 10 * v ≤ x
mul_regroup p v d x h = grind (arith, h)

value-ge : (val : ℕ) (ds : List ℕ) → 10 ^ length ds * val ≤ value 10 val ds
value-ge val [] = omega arith
value-ge val (d ∷ ds) =
    rw (pow-suc 10 (length ds))
      (mul_regroup (10 ^ length ds) val d (value 10 (val * 10 + d) ds) (value-ge (val * 10 + d) ds))

mul-ge : (p d x : ℕ) → 0 < d → p * d ≤ x → p ≤ x
mul-ge p d x h l = grind (arith, h, l)

pub length-numeral : (num : ℕ) (ds : List ℕ) → num < 2 ^ 64 → IsNumeral 10 num ds → length ds ≤ 20
length-numeral num [] l h = omega arith
length-numeral num (d ∷ ds) l h = elim (Bool-cases (num == 0)) [
  | inl z ↦ omega (arith, h.short (ground (arith, z)))
  | inr z ↦ elim (Bool-cases (leb 20 (length ds))) [
    | inl long ↦
        let power : 10 ^ 20 ≤ 10 ^ length ds =
          pow-le-pow_right {n = 10} (omega arith) {i = 20} {j = length ds} (ground (arith, long)) in
        let bound : 10 ^ length ds ≤ value 10 (0 * 10 + d) ds =
          mul-ge (10 ^ length ds) (0 * 10 + d) (value 10 (0 * 10 + d) ds)
            (omega (arith, h.lead (ground (arith, z)))) (value-ge (0 * 10 + d) ds) in
        absurd (omega (arith, h.worth))
    | inr short ↦ ground (arith, short)
  ]
]

-- What "%ld" prints for the pattern `a`, with the digits of its absolute value.
abbrev pub magnitude : ℕ → ℕ
magnitude a = if leb (2 ^ 63) a then 2 ^ 64 - a else a

abbrev pub text_of : Bool → List ℕ → List ℕ
text_of true ds = 45 ∷ map digit_char ds
text_of false ds = map digit_char ds

abbrev pub signed_text : ℕ → List ℕ → List ℕ
signed_text a = text_of (leb (2 ^ 63) a)

abbrev long_spec : Spec
long_spec = record default_spec { lflag = 1 }

put_signed-text :
    (fuel a : ℕ)
    → a < 2 ^ 64
    → 64 ≤ fuel
    → (ds : List ℕ) × (put_signed (suc fuel) a long_spec ≡ ok (signed_text a ds))
      × IsNumeral 10 (magnitude a) ds
unfolding put_signed int_arg
put_signed-text fuel a l f = elim (Bool-cases (leb (2 ^ 63) a)) [
  | inl e ↦
      let (ds, run, n) =
        printnum-IsNumeral fuel (2 ^ 64 - a) 10 (negsuc 0) 32 (omega arith) (omega arith)
          (ground (arith, e, wide)) in
      (ds, rw (small, e, less e, run) (ap (λ xs. ok (45 ∷ xs)) (unpadded ds)), rw e n)
  | inr e ↦
      let (ds, run, n) =
        printnum-IsNumeral fuel a 10 (negsuc 0) 32 (omega arith) (omega arith)
          (omega (arith, wide)) in
      (ds, rw (small, e, run) (ap (λ xs. ok xs) (unpadded ds)), rw e n)
]
  where
    wide : 2 ^ 64 ≤ 2 ^ suc fuel
    wide = pow-le-pow_right {n = 2} (omega arith) {i = 64} {j = suc fuel} (omega arith)

    small : a % 2 ^ 64 ≡ a
    small = omega arith

    less : leb (2 ^ 63) a ≡ true → (2 ^ 64 - a) % 2 ^ 64 ≡ 2 ^ 64 - a
    less e = ground (arith, e)

    unpadded : (ds : List ℕ) → padded (negsuc 0) 32 ds ≡ map digit_char ds
    unpadded ds = rw (zero-sub (length ds))

escape_long :
    (fuel fmt : ℕ) (args : List ℕ) (m : ℕ → ℕ)
    → m fmt ≡ 108
    → m (fmt + 1) ≡ 100
    → escape (suc (suc fuel)) fmt default_spec args m ≡ ok (long_spec, args, fmt + 1)
unfolding escape read_flag
escape_long fuel fmt args m p q = rw (escape, read_flag, p) (rw (escape, read_flag, q))

pub convert_signed :
    (printfmt : (ℕ → ℕ) → List ℕ → Run (List ℕ)) (fuel fmt a : ℕ) (spec : Spec) (m : ℕ → ℕ)
    (xs : List ℕ)
    → m fmt ≡ 100
    → put_signed fuel a spec ≡ ok xs
    → convert printfmt fuel fmt spec (a ∷ []) m ≡ ok (xs, [], fmt + 1)
unfolding convert
convert_signed printfmt fuel fmt a spec m xs p run = rw (convert, p, run)

vprintfmt_end :
    (fuel fmt : ℕ) (args : List ℕ) (m : ℕ → ℕ) → m fmt ≡ 0 → vprintfmt (suc fuel) fmt args m ≡ ok []
unfolding vprintfmt
vprintfmt_end fuel fmt args m z = rw (vprintfmt, z)

vprintfmt_from :
    (fuel fmt a : ℕ) (m : ℕ → ℕ) (xs : List ℕ)
    → HasBytes m fmt (codes "%ld" ++ 0 ∷ [])
    → put_signed (suc (suc fuel)) a long_spec ≡ ok xs
    → vprintfmt (suc (suc (suc fuel))) fmt (a ∷ []) m ≡ ok xs
unfolding vprintfmt
vprintfmt_from fuel fmt a m xs h run =
    rw
      (
        vprintfmt,
        h.0,
        escape_long fuel (fmt + 1) (a ∷ []) m h.1.0 h.1.1.0,
        convert_signed _ (suc (suc fuel)) (fmt + 1 + 1) a long_spec m xs h.1.1.0 run,
        vprintfmt_end (suc fuel) (fmt + 1 + 1 + 1) [] m h.1.1.1.0,
      )
      (ap ok (append-nil xs))

pub vprintfmt_long :
    (fuel fmt a : ℕ)
    → a < 2 ^ 64
    → 67 ≤ fuel
    → (ds : List ℕ) × ((m : ℕ → ℕ)
        → HasBytes m fmt (codes "%ld" ++ 0 ∷ [])
        → vprintfmt fuel fmt (a ∷ []) m ≡ ok (signed_text a ds))
      × IsNumeral 10 (magnitude a) ds
vprintfmt_long fuel fmt a l f =
    let enough : suc (suc (suc (fuel - 3))) ≡ fuel = omega (arith, f) in
    let (ds, run, n) = put_signed-text (suc (fuel - 3)) a l (omega (arith, f)) in
    (
      ds,
      λ m h.
          subst (λ k. vprintfmt k fmt (a ∷ []) m ≡ ok (signed_text a ds)) enough
            (vprintfmt_from (fuel - 3) fmt a m (signed_text a ds) h run),
      n,
    )
