-- ===== src/CString/Compare.antt =====
-- The comparisons of libs/string.c: their result is 0 exactly when there is no difference.
use mathlib.Core.Path.{ap₂}
use os_lab.Base.{
  ==_iff, ℕ, zero, suc, ◌+◌, ◌<◌, ◌≡◌, ◌≢◌, refl, ◌↔◌, inl, inr, true, false, List, [], ◌∷◌, length,
  ◌==◌, ◌&&◌, not, ok, ℤ, pos, arith, Bool-cases,
}
use os_lab.CString.{byte_diff, strcmp, memcmp}
use os_lab.CString.Strings.{IsString}

byte_diff-ne : (a b : ℕ) → (a == b) ≡ false → byte_diff a b ≢ pos 0
byte_diff-ne a b n = ground arith

module _ (m : ℕ → ℕ) where
  -- The `n` bytes from `s1` on are those from `s2` on.
  abbrev pub SameBytes : ℕ → ℕ → ℕ → Type 0
  SameBytes s1 s2 zero = Unit
  SameBytes s1 s2 (suc n) = (m s1 ≡ m s2) × SameBytes (s1 + 1) (s2 + 1) n

  -- `memcmp` returns 0 exactly when the `n` bytes from `s1` on are those from `s2` on.
  memcmp_iff : (s1 s2 n : ℕ) → (memcmp s1 s2 n m ≡ pos 0) ↔ SameBytes s1 s2 n
  unfolding memcmp
  memcmp_iff s1 s2 zero = (λ _. tt, λ _. refl)
  memcmp_iff s1 s2 (suc n) =
      let rest = memcmp_iff (s1 + 1) (s2 + 1) n in
      elim (Bool-cases (m s1 == m s2)) [
        | inl same ↦ (λ e. (ground arith, rest.0 (ground (arith, e))), λ h. rw same (rest.1 h.1))
        | inr differ ↦ (
          λ e. absurd (byte_diff-ne (m s1) (m s2) differ (ground (arith, e))),
          λ h. absurd (ground (arith, h.0)),
        )
      ]

  -- With fuel above the length of the first string `strcmp` returns, and returns 0 exactly when the
  -- two strings are the same.
  pub strcmp_iff :
      (fuel s1 s2 : ℕ) (xs ys : List ℕ)
      → IsString m s1 xs
      → IsString m s2 ys
      → length xs < fuel
      → (r : ℤ) × (strcmp fuel s1 s2 m ≡ ok r) × ((r ≡ pos 0) ↔ (xs ≡ ys))
  unfolding strcmp
  strcmp_iff zero s1 s2 xs ys h k f = absurd (omega arith)
  strcmp_iff (suc fuel) s1 s2 [] [] h k f = (pos 0, ground arith, (λ _. refl, λ _. refl))
  strcmp_iff (suc fuel) s1 s2 [] (y ∷ ys) h k f =
      (byte_diff 0 y, ground arith, (λ e. absurd (ground (arith, k.1)), λ e. cc))
  strcmp_iff (suc fuel) s1 s2 (x ∷ xs) [] h k f =
      (byte_diff x 0, ground arith, (λ e. absurd (ground (arith, h.1)), λ e. cc))
  strcmp_iff (suc fuel) s1 s2 (x ∷ xs) (y ∷ ys) h k f = elim (Bool-cases (x == y)) [
    | inl same ↦
        let (r, run, e) = strcmp_iff fuel (s1 + 1) (s2 + 1) xs ys h.2 k.2 (omega arith) in
        let test : (not (m s1 == 0) && m s1 == m s2) ≡ true = ground (arith, h.0, h.1, k.0) in
        (
          r,
          rw test run,
          (λ z. ap₂ (λ (a : ℕ) (l : List ℕ). a ∷ l) ((==_iff x y).0 same) (e.0 z), λ z. e.1 (cc)),
        )
    | inr differ ↦
        let test : (not (m s1 == 0) && m s1 == m s2) ≡ false = ground (arith, h.0, h.1, k.0) in
        (
          byte_diff (m s1) (m s2),
          rw test refl,
          (
            λ z. absurd (byte_diff-ne (m s1) (m s2) (ground (arith, h.0, k.0)) z),
            λ z. absurd (ground (arith, z)),
          ),
        )
  ]
