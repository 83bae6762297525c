-- ===== src/Print/RoundTrip.antt =====
-- A number printed by `vsnprintf` of libs/printfmt.c and read back by `strtol` of libs/string.c.
use native.Mathlib.Nat.{mod-eq_of_lt}
use os_lab.Base.{
  ℕ, zero, suc, ◌+◌, ◌-◌, ◌%◌, ◌^◌, ◌<◌, ◌≤◌, ◌≡◌, ◌≢◌, ◌⊎◌, inl, inr, refl, sym, subst, ◌∙◌, ap,
  List, [], ◌∷◌, ◌++◌, map, length, Bool, true, false, Run, ok, leb, if◌then◌else◌, arith, pos,
  codes,
}
use os_lab.CString.Number.{strtol}
use os_lab.CString.Number.Value.{
  IsDigit, HasDigits, Sign, bare, minus, is_minus, given, HasSign, behind_sign, value, strtol-value,
}
use os_lab.Print.{digit_char, vsnprintf}
use os_lab.Print.Digits.{IsNumeral, AllBelow}
use os_lab.Print.Buffer.{HasBytes, fitting, vsnprintf-Holds}
use os_lab.Print.Decimal.{length-numeral, magnitude, text_of, signed_text, vprintfmt_long}

-- The characters of a text are bytes.
text-fits : (n : ℕ) (cs : List ℕ) → AllBelow 256 cs → length cs ≤ n → fitting n cs ≡ cs
text-fits zero [] b l = refl
text-fits zero (c ∷ cs) b l = absurd (omega arith)
text-fits (suc n) [] b l = refl
text-fits (suc n) (c ∷ cs) b l = rw (mod-eq_of_lt b.0, text-fits n cs b.1 (omega (arith, l)))

digit_char-IsDigit : (d : ℕ) → d < 10 → IsDigit (digit_char d) d
digit_char-IsDigit d h = inl (h, ground (arith, h))

digits-AllBelow : (ds : List ℕ) → AllBelow 10 ds → AllBelow 256 (map digit_char ds)
digits-AllBelow [] b = tt
digits-AllBelow (d ∷ ds) b = (ground (arith, b.0), digits-AllBelow ds b.1)

-- Digits in memory with a 0 behind them are what `strtol` takes for digits.
digits-HasDigits :
    (m : ℕ → ℕ) (p : ℕ) (ds : List ℕ)
    → AllBelow 10 ds
    → HasBytes m p (map digit_char ds)
    → m (p + length ds) ≡ 0
    → HasDigits m 10 p ds
digits-HasDigits m p [] b h z = λ d e. absurd (no_digit d e)
  where
    here : m p ≡ 0
    here = subst (λ q. m q ≡ 0) (omega arith) z

    no_digit : (d : ℕ) → IsDigit (m p) d → ⊥
    no_digit d (inl (l, e)) = omega (arith, here, e)
    no_digit d (inr (l, k, inl e)) = omega (arith, here, e, l)
    no_digit d (inr (l, k, inr e)) = omega (arith, here, e, l)
digits-HasDigits m p (d ∷ ds) b h z = (
  rw h.0 (digit_char-IsDigit d b.0),
  b.0,
  digits-HasDigits m (p + 1) ds b.1 h.1 (subst (λ q. m q ≡ 0) (omega arith) z),
)

text_of-AllBelow : (neg : Bool) (ds : List ℕ) → AllBelow 10 ds → AllBelow 256 (text_of neg ds)
text_of-AllBelow true ds b = (omega arith, digits-AllBelow ds b)
text_of-AllBelow false ds b = digits-AllBelow ds b

length-digits : (ds : List ℕ) → length (map digit_char ds) ≡ length ds
length-digits [] = refl
length-digits (d ∷ ds) = ap suc (length-digits ds)

length-text_of : (neg : Bool) (ds : List ℕ) → length ds ≤ 20 → length (text_of neg ds) ≤ 21
length-text_of true ds l = omega (arith, length-digits ds)
length-text_of false ds l = omega (arith, length-digits ds)

abbrev sign_of : Bool → Sign
sign_of neg = if neg then minus else bare

-- The text in memory is a sign and digits as `strtol` reads them, up to its end.
record Reads (neg : Bool) (m : ℕ → ℕ) (p : ℕ) (ds : List ℕ) : Type 0 where
  sign : HasSign (sign_of neg) m (p + 0)
  digits : HasDigits m 10 (behind_sign (sign_of neg) (p + 0)) ds
  end : behind_sign (sign_of neg) (p + 0) + length ds ≡ p + length (text_of neg ds)

text_of-Reads :
    (neg : Bool) (m : ℕ → ℕ) (p : ℕ) (ds : List ℕ)
    → 0 < length ds
    → AllBelow 10 ds
    → HasBytes m p (text_of neg ds)
    → m (p + length (text_of neg ds)) ≡ 0
    → Reads neg m p ds
text_of-Reads true m p ds n b h z =
    let start : p ≡ p + 0 = omega arith in
    record {
      sign = subst (λ q. m q ≡ 45) start h.0;
      digits =
          subst (λ q. HasDigits m 10 (q + 1) ds) start
            (digits-HasDigits m (p + 1) ds b h.1
              (subst (λ q. m q ≡ 0) (omega (arith, length-digits ds)) z));
      end = omega (arith, length-digits ds);
    }
text_of-Reads false m p [] n b h z = absurd (omega (arith, n))
text_of-Reads false m p (d ∷ ds) n b h z =
    let start : p ≡ p + 0 = omega arith in
    let first : m (p + 0) ≡ 48 + d = subst (λ q. m q ≡ 48 + d) start (ground (arith, h.0, b.0)) in
    record {
      sign = (
        omega (arith, first, b.0),
        omega (arith, first, b.0),
        omega (arith, first, b.0),
        omega (arith, first, b.0),
      );
      digits =
          subst (λ q. HasDigits m 10 q (d ∷ ds)) start
            (digits-HasDigits m p (d ∷ ds) b h
              (subst (λ q. m q ≡ 0) (omega (arith, length-digits (d ∷ ds))) z));
      end = omega (arith, length-digits (d ∷ ds));
    }

value_back :
    (a : ℕ)
    → a < 2 ^ 64
    → (if leb (2 ^ 63) a then (2 ^ 64 - magnitude a) % 2 ^ 64 else magnitude a) ≡ a
value_back a l = ground (arith, l)

same_result : {a b c d : ℕ} → a ≡ b → c ≡ d → ◌≡◌ {A = Run (ℕ × ℕ)} (ok (a, c)) (ok (b, d))
same_result p q = λ i. ok (p i, q i)

read_back :
    (rounds str a : ℕ) (m : ℕ → ℕ) (ds : List ℕ)
    → 22 ≤ rounds
    → a < 2 ^ 64
    → a ≢ 2 ^ 63
    → length ds ≤ 20
    → IsNumeral 10 (magnitude a) ds
    → Reads (leb (2 ^ 63) a) m str ds
    → strtol rounds str 10 m ≡ ok (a, str + length (signed_text a ds))
read_back rounds str a m ds r l x few n t =
    strtol-value rounds str 10 0 (sign_of (leb (2 ^ 63) a)) 10
      (behind_sign (sign_of (leb (2 ^ 63) a)) (str + 0)) m ds (omega (arith, r))
      (omega (arith, few, r)) tt t.sign (given (omega arith) (omega arith) refl refl) t.digits
      (subst (λ v. v < 2 ^ 63) (sym n.worth) small)
    ∙ same_result (same_sign (leb (2 ^ 63) a) (value 10 0 ds) ∙ number) t.end
  where
    same_sign :
        (neg : Bool) (v : ℕ)
        → (if is_minus (sign_of neg) then (2 ^ 64 - v) % 2 ^ 64 else v)
          ≡ (if neg then (2 ^ 64 - v) % 2 ^ 64 else v)
    same_sign true v = refl
    same_sign false v = refl

    number : (if leb (2 ^ 63) a then (2 ^ 64 - value 10 0 ds) % 2 ^ 64 else value 10 0 ds) ≡ a
    number =
        subst (λ v. (if leb (2 ^ 63) a then (2 ^ 64 - v) % 2 ^ 64 else v) ≡ a) (sym n.worth)
          (value_back a l)

    small : magnitude a < 2 ^ 63
    small = ground (arith, l, x)

-- The format is in a memory that differs in the buffer only.
format-kept :
    (m k : ℕ → ℕ) (str size fmt : ℕ)
    → (str + size ≤ fmt) ⊎ (fmt + 4 ≤ str)
    → HasBytes m fmt (codes "%ld" ++ 0 ∷ [])
    → ((q : ℕ) → (q < str) ⊎ (str + size ≤ q) → k q ≡ m q)
    → HasBytes k fmt (codes "%ld" ++ 0 ∷ [])
format-kept m k str size fmt (inl l) h e = (
  e fmt (inr l) ∙ h.0,
  (
    e (fmt + 1) (inr (omega (arith, l))) ∙ h.1.0,
    (
      e (fmt + 1 + 1) (inr (omega (arith, l))) ∙ h.1.1.0,
      (e (fmt + 1 + 1 + 1) (inr (omega (arith, l))) ∙ h.1.1.1.0, tt),
    ),
  ),
)
format-kept m k str size fmt (inr l) h e = (
  e fmt (inl (omega (arith, l))) ∙ h.0,
  (
    e (fmt + 1) (inl (omega (arith, l))) ∙ h.1.0,
    (
      e (fmt + 1 + 1) (inl (omega (arith, l))) ∙ h.1.1.0,
      (e (fmt + 1 + 1 + 1) (inl (omega (arith, l))) ∙ h.1.1.1.0, tt),
    ),
  ),
)

-- A `long` other than LONG_MIN, given by its pattern `a`, that `vsnprintf` prints by "%ld" into a
-- buffer of at least 22 bytes, in memory, not at NULL and apart from the format, is what `strtol` with
-- base 10 reads there; it stops behind
-- as many characters as `vsnprintf` counts. The fuel is at least 67 for `vsnprintf` and 22 for `strtol`.
pub strtol-vsnprintf :
    (fuel rounds str size fmt a : ℕ) (m : ℕ → ℕ)
    → 67 ≤ fuel
    → 22 ≤ rounds
    → 0 < str
    → 22 ≤ size
    → str + size ≤ 2 ^ 64
    → (str + size ≤ fmt) ⊎ (fmt + 4 ≤ str)
    → HasBytes m fmt (codes "%ld" ++ 0 ∷ [])
    → a < 2 ^ 64
    → a ≢ 2 ^ 63
    → (m' : ℕ → ℕ) × (n : ℕ) × (vsnprintf fuel str size fmt (a ∷ []) m ≡ ok (pos n, m'))
      × (strtol rounds str 10 m' ≡ ok (a, str + n))
strtol-vsnprintf fuel rounds str size fmt a m f r z s top off h l x =
    let (ds, run, n) = vprintfmt_long fuel fmt a l f in
    let few = length-numeral (magnitude a) ds (ground (arith, l)) n in
    let short = length-text_of (leb (2 ^ 63) a) ds few in
    let (m', done, holds) =
      vsnprintf-Holds fuel str size fmt (a ∷ []) (signed_text a ds) m z (omega (arith, s)) top
        (omega (arith, short)) (λ k e. run k (format-kept m k str size fmt off h e)) in
    let whole =
      text-fits (size - 1) (signed_text a ds) (text_of-AllBelow (leb (2 ^ 63) a) ds n.below)
        (omega (arith, short, s)) in
    (
      m',
      length (signed_text a ds),
      done,
      read_back rounds str a m' ds r l x few n (
          text_of-Reads (leb (2 ^ 63) a) m' str ds n.nonempty n.below
            (subst (λ cs. HasBytes m' str cs) whole holds.chars)
            (subst (λ cs. m' (str + length cs) ≡ 0) whole holds.stop)),
    )
