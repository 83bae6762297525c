-- ===== src/Dtb/Tree.antt =====
-- A device tree as a sequence of tokens: how it lies in memory, and the memory that it names.
use os_lab.Base.{
  ℕ, zero, suc, ◌+◌, ◌<◌, ◌≤◌, ◌≡◌, ◌≢◌, ◌↔◌, refl, sym, ap, ◌∙◌, List, [], ◌∷◌, length, Bool, true,
  false, Option, none, some, leb, ◌==◌, ◌&&◌, ◌||◌, if◌then◌else◌, codes, arith, Bool-cases, inl,
  inr, ok, ℤ, pos, negsuc,
}
use mathlib.Core.Path.{ap₂}
use os_lab.CString.{strcmp, strncmp, byte_diff}
use os_lab.CString.Strings.{IsString}
use os_lab.CString.Compare.{strcmp_iff}
use os_lab.Dtb.{align_down, is_zero}
use os_lab.Dtb.Words.{big32, big64}

-- A property has its name, its length and, where it is long enough, the two 64-bit words that its
-- value begins with.
pub data Token : Type 0 where
  begin_node : List ℕ → Token
  end_node : Token
  prop : List ℕ → ℕ → ℕ → ℕ → Token
  nop : Token

-- The tokens lie at `p`, with FDT_END behind them; `strings` is the block of the property names.
abbrev pub HasTokens : (ℕ → ℕ) → ℕ → ℕ → List Token → Type 0
HasTokens m strings p [] = big32 m p ≡ 9
HasTokens m strings p (begin_node name ∷ ts) =
    (big32 m p ≡ 1)
    × IsString m (p + 4) name
    × HasTokens m strings (align_down (p + 4 + length name + 4)) ts
HasTokens m strings p (end_node ∷ ts) = (big32 m p ≡ 2) × HasTokens m strings (p + 4) ts
HasTokens m strings p (prop name len base size ∷ ts) =
    (big32 m p ≡ 3)
    × (big32 m (p + 4) ≡ len)
    × IsString m (strings + big32 m (p + 4 + 4)) name
    × (16 ≤ len → (big64 m (p + 4 + 8) ≡ base) × (big64 m (p + 4 + 16) ≡ size))
    × HasTokens m strings (align_down (p + 4 + 8 + len + 3)) ts
HasTokens m strings p (nop ∷ ts) = (big32 m p ≡ 4) × HasTokens m strings (p + 4) ts

abbrev pub same_text : List ℕ → List ℕ → Bool
same_text [] [] = true
same_text [] (y ∷ ys) = false
same_text (x ∷ xs) [] = false
same_text (x ∷ xs) (y ∷ ys) = x == y && same_text xs ys

abbrev pub starts_with : List ℕ → List ℕ → Bool
starts_with [] xs = true
starts_with (c ∷ cs) [] = false
starts_with (c ∷ cs) (x ∷ xs) = x == c && starts_with cs xs

-- The first property "reg" of at least 16 bytes in a node whose name starts with "memory", where a
-- node counts as such up to the next end of a node.
abbrev pub first_reg : Bool → List Token → Option (ℕ × ℕ)
first_reg inside [] = none
first_reg inside (begin_node name ∷ ts) = first_reg (inside || starts_with (codes "memory") name) ts
first_reg inside (end_node ∷ ts) = first_reg false ts
first_reg inside (prop name len base size ∷ ts) =
    let rest = first_reg inside ts in
    if inside && (same_text name (codes "reg") && leb 16 len) then some (base, size) else rest
first_reg inside (nop ∷ ts) = first_reg inside ts

same_text_iff : (xs ys : List ℕ) → (same_text xs ys ≡ true) ↔ (xs ≡ ys)
same_text_iff [] [] = (λ _. refl, λ _. refl)
same_text_iff [] (y ∷ ys) = (λ e. cc, λ e. cc)
same_text_iff (x ∷ xs) [] = (λ e. cc, λ e. cc)
same_text_iff (x ∷ xs) (y ∷ ys) =
    let rest = same_text_iff xs ys in
    (
      λ e. ap₂ (λ (a : ℕ) (l : List ℕ). a ∷ l) (ground (arith, e)) (rest.0 (ground (arith, e))),
      λ e.
          let heads : x ≡ y = cc in let tails : xs ≡ ys = cc in ground (arith, heads, rest.1 tails),
    )

is_zero-false : (r : ℤ) → r ≢ pos 0 → is_zero r ≡ false
is_zero-false (pos zero) n = absurd (n refl)
is_zero-false (pos (suc k)) n = ground arith
is_zero-false (negsuc k) n = refl

-- `strcmp` of two strings in memory, as a test.
pub strcmp-same_text :
    (fuel s1 s2 : ℕ) (xs ys : List ℕ) (m : ℕ → ℕ)
    → IsString m s1 xs
    → IsString m s2 ys
    → length xs < fuel
    → (r : ℤ) × (strcmp fuel s1 s2 m ≡ ok r) × (is_zero r ≡ same_text xs ys)
strcmp-same_text fuel s1 s2 xs ys m h k f =
    let (r, run, e) = strcmp_iff m fuel s1 s2 xs ys h k f in
    (
      r,
      run,
      elim (Bool-cases (same_text xs ys)) [
        | inl t ↦ ap is_zero (e.1 ((same_text_iff xs ys).0 t)) ∙ sym t
        | inr t ↦ is_zero-false r (λ z. clash t ((same_text_iff xs ys).1 (e.0 z))) ∙ sym t
      ],
    )
  where
    clash : same_text xs ys ≡ false → same_text xs ys ≡ true → ⊥
    clash t u = cc

byte_diff-zero : (a b : ℕ) → (a == b) ≡ false → is_zero (byte_diff a b) ≡ false
byte_diff-zero a b n = ground arith

-- `strncmp` of a string with as many characters of another as that has in front of its 0.
pub strncmp-starts_with :
    (s1 s2 : ℕ) (xs cs : List ℕ) (m : ℕ → ℕ)
    → IsString m s1 xs
    → IsString m s2 cs
    → is_zero (strncmp s1 s2 (length cs) m) ≡ starts_with cs xs
unfolding strncmp
strncmp-starts_with s1 s2 xs [] m h k = refl
strncmp-starts_with s1 s2 [] (c ∷ cs) m h k =
    let zero_here : m s1 ≡ 0 = h in
    let other : m s2 ≢ 0 = λ z. k.1 (sym k.0 ∙ z) in
    ground (arith, zero_here, other, byte_diff-zero (m s1) (m s2))
strncmp-starts_with s1 s2 (x ∷ xs) (c ∷ cs) m h k =
    let rest = strncmp-starts_with (s1 + 1) (s2 + 1) xs cs m h.2 k.2 in
    let left : m s1 ≡ x = h.0 in
    let right : m s2 ≡ c = k.0 in
    let full : x ≢ 0 = h.1 in
    elim (Bool-cases (x == c)) [
      | inl e ↦ ground (arith, e, rest)
      | inr e ↦ ground (arith, e, byte_diff-zero (m s1) (m s2))
    ]
