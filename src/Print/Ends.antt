-- ===== src/Print/Ends.antt =====
-- The parts of `vprintfmt` of libs/printfmt.c return.
use native.Mathlib.Nat.{pow-le-pow_right}
use os_lab.Base.{
  ℕ, zero, suc, ◌+◌, ◌^◌, ◌<◌, ◌≤◌, ◌≡◌, refl, subst, [], Bool, true, false, Run, ok, leb, ◌==◌,
  ◌||◌, ◌>>=◌, if◌then◌else◌, arith, ℤ,
}
use os_lab.Print.{
  printnum, put_chars, put_string, put_pointer, put_signed, put_unsigned, null_text, is_spent,
  lower,
}
use os_lab.Print.Escape.{Spec, int_arg, uint_arg}
use os_lab.Print.Digits.{printnum-IsNumeral}

abbrev pub Ends {ℓ} : {A : Type ℓ} → Run A → Type ℓ
Ends {A} r = (x : A) × (r ≡ ok x)

-- From every address on a 0 stands within `d` bytes.
abbrev pub IsTerminated : (ℕ → ℕ) → ℕ → Type 0
IsTerminated m d = (p : ℕ) → (k : ℕ) × (k < d) × (m (p + k) ≡ 0)

pub >>=-Ends {ℓ κ} :
    {A : Type ℓ} {B : Type κ} (r : Run A) (f : A → Run B)
    → Ends r
    → ((x : A) → Ends (f x))
    → Ends (r >>= f)
>>=-Ends r f (x, e) g = rw e (g x)

pub if-Ends {ℓ} :
    {A : Type ℓ} (b : Bool) (x y : Run A)
    → (b ≡ true → Ends x)
    → (b ≡ false → Ends y)
    → Ends (if b then x else y)
if-Ends true x y f g = f refl
if-Ends false x y f g = g refl

pub put_chars-Ends :
    (fuel k p : ℕ) (precision : ℤ) (alt : Bool) (m : ℕ → ℕ)
    → k < fuel
    → m (p + k) ≡ 0
    → Ends (put_chars fuel p precision alt m)
unfolding put_chars
put_chars-Ends zero k p precision alt m f z = absurd (omega arith)
put_chars-Ends (suc fuel) zero p precision alt m f z = ([], rw (put_chars, here))
  where
    here : m p ≡ 0
    here = subst (λ q. m q ≡ 0) (omega arith) z
put_chars-Ends (suc fuel) (suc k) p precision alt m f z =
    if-Ends (m p == 0 || is_spent precision) _ _ (λ e. ([], refl))
      λ e.
        >>=-Ends _ _
          (put_chars-Ends fuel k (p + 1) (lower precision) alt m (omega (arith, f))
            (subst (λ q. m q ≡ 0) (omega arith) z))
          (λ xs. (_, refl))

pub put_string-Ends :
    (fuel k p : ℕ) (spec : Spec) (m : ℕ → ℕ)
    → k < fuel
    → m (p + k) ≡ 0
    → Ends (put_string fuel p spec m)
unfolding put_string
put_string-Ends fuel k p spec m f z =
    >>=-Ends _ _ (put_chars-Ends fuel k p spec.precision spec.altflag m f z) (λ xs. (_, refl))

pub put_pointer-Ends :
    (fuel d p : ℕ) (spec : Spec) (m : ℕ → ℕ)
    → d ≤ fuel
    → 7 ≤ fuel
    → IsTerminated m d
    → Ends (put_pointer fuel p spec m)
unfolding put_pointer
put_pointer-Ends fuel d p spec m f g t =
    let (k, l, z) = t p in
    if-Ends (p == 0) _ _ (λ e. put_string-Ends fuel 6 0 spec null_text (omega (arith, g)) refl)
      (λ e. put_string-Ends fuel k p spec m (omega (arith, f, l)) z)

pub printnum-Ends :
    (fuel num base : ℕ) (width : ℤ) (padc : ℕ)
    → 64 ≤ fuel
    → 2 ≤ base
    → base ≤ 16
    → num < 2 ^ 64
    → Ends (printnum fuel num base width padc)
printnum-Ends zero num base width padc f b o l = absurd (omega (arith, f))
printnum-Ends (suc fuel) num base width padc f b o l =
    let wide : 2 ^ 64 ≤ 2 ^ suc fuel =
      pow-le-pow_right {n = 2} (omega arith) {i = 64} {j = suc fuel} f in
    let (ds, run, _) = printnum-IsNumeral fuel num base width padc b o (omega (arith, l, wide)) in
    (_, run)

pub int_arg-lt : (lflag a : ℕ) → int_arg lflag a < 2 ^ 64
unfolding int_arg
int_arg-lt lflag a = ground arith

pub uint_arg-lt : (lflag a : ℕ) → uint_arg lflag a < 2 ^ 64
unfolding uint_arg
uint_arg-lt lflag a = ground arith

pub put_signed-Ends : (fuel a : ℕ) (spec : Spec) → 64 ≤ fuel → Ends (put_signed fuel a spec)
unfolding put_signed
put_signed-Ends fuel a spec f =
    if-Ends (leb (2 ^ 63) (int_arg spec.lflag a)) _ _
      (λ e.
        >>=-Ends _ _
          (printnum-Ends fuel _ 10 spec.width spec.padc f (omega arith) (omega arith) (omega arith))
          (λ xs. (_, refl)))
      (λ e.
        printnum-Ends fuel _ 10 spec.width spec.padc f (omega arith) (omega arith)
          (int_arg-lt spec.lflag a))

pub put_unsigned-Ends :
    (fuel base a : ℕ) (spec : Spec)
    → 64 ≤ fuel
    → 2 ≤ base
    → base ≤ 16
    → Ends (put_unsigned fuel base a spec)
unfolding put_unsigned
put_unsigned-Ends fuel base a spec f b o =
    printnum-Ends fuel _ base spec.width spec.padc f b o (uint_arg-lt spec.lflag a)
