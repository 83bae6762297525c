-- ===== src/CString/Strings.antt =====
-- The functions of libs/string.c that walk a string, on a memory that holds one.
use os_lab.Base.{
  ℕ, zero, suc, ◌+◌, ◌≤◌, ◌<◌, ◌≡◌, ◌≢◌, refl, ◌∙◌, ◌⊎◌, inl, inr, true, false, Option, none, some,
  List, [], ◌∷◌, length, ltb, ◌==◌, if◌then◌else◌, ok, arith, Bool-cases,
}
use os_lab.Links.{update}
use os_lab.CString.{strlen, strlen_loop, strnlen, strnlen_loop, strcpy, strchr, strfind, copy_up}
use os_lab.CString.Copy.{moved, copy_up-moved}

-- The string at `s` has the bytes `bs`, and a 0 behind them.
abbrev pub IsString : (ℕ → ℕ) → ℕ → List ℕ → Type 0
IsString m s [] = m s ≡ 0
IsString m s (b ∷ bs) = (m s ≡ b) × (b ≢ 0) × IsString m (s + 1) bs

strlen_loop-length :
    (fuel s cnt : ℕ) (m : ℕ → ℕ) (bs : List ℕ)
    → IsString m s bs
    → length bs < fuel
    → strlen_loop fuel s cnt m ≡ ok (cnt + length bs)
unfolding strlen_loop
strlen_loop-length zero s cnt m bs h f = absurd (omega arith)
strlen_loop-length (suc fuel) s cnt m [] h f = ground arith
strlen_loop-length (suc fuel) s cnt m (b ∷ bs) h f =
    ground (arith, strlen_loop-length fuel (s + 1) (cnt + 1) m bs h.2)

strnlen_loop-lem :
    (left s cnt : ℕ) (m : ℕ → ℕ) (bs : List ℕ)
    → IsString m s bs
    → strnlen_loop left s cnt m ≡ cnt + (if ltb (length bs) left then length bs else left)
unfolding strnlen_loop
strnlen_loop-lem zero s cnt m bs h = ground arith
strnlen_loop-lem (suc left) s cnt m [] h = ground arith
strnlen_loop-lem (suc left) s cnt m (b ∷ bs) h =
    ground (arith, strnlen_loop-lem left (s + 1) (cnt + 1) m bs h.2)

-- With fuel above the length of the string `strlen` returns it, and `strnlen` is the smaller one of
-- `strlen` and its limit.
pub strlen-strnlen :
    (fuel s len : ℕ) (m : ℕ → ℕ) (bs : List ℕ)
    → IsString m s bs
    → length bs < fuel
    → (strlen fuel s m ≡ ok (length bs))
      × (strnlen s len m ≡ (if ltb (length bs) len then length bs else len))
unfolding strlen strnlen
strlen-strnlen fuel s len m bs h f = (
  ground (arith, strlen_loop-length fuel s 0 m bs h f),
  ground (arith, strnlen_loop-lem len s 0 m bs h),
)

-- A write outside of a string leaves it.
IsString-frame :
    (m : ℕ → ℕ) (s p v : ℕ) (bs : List ℕ)
    → (p < s) ⊎ (s + length bs < p)
    → IsString m s bs
    → IsString (update m p v) s bs
IsString-frame m s p v [] h i = ground arith
IsString-frame m s p v (b ∷ bs) h i =
    (ground arith, i.1, IsString-frame m (s + 1) p v bs (apart h) i.2)
  where
    apart : (p < s) ⊎ (s + suc (length bs) < p) → (p < s + 1) ⊎ (s + 1 + length bs < p)
    apart (inl a) = inl (omega arith)
    apart (inr a) = inr (omega arith)

strcpy-copy_up :
    (fuel p src : ℕ) (m : ℕ → ℕ) (bs : List ℕ)
    → IsString m src bs
    → (p ≤ src) ⊎ (src + length bs < p)
    → length bs < fuel
    → strcpy fuel p src m ≡ ok (copy_up p src (suc (length bs)) m)
unfolding strcpy copy_up
strcpy-copy_up zero p src m bs h a f = absurd (omega arith)
strcpy-copy_up (suc fuel) p src m [] h a f = ground arith
strcpy-copy_up (suc fuel) p src m (b ∷ bs) h a f =
    let more : (m src == 0) ≡ false = ground (arith, h.0, h.1) in
    rw more (
      strcpy-copy_up fuel (p + 1) (src + 1) (update m p (m src)) bs
        (IsString-frame m (src + 1) p (m src) bs (clear a) h.2) (next a) (omega arith))
  where
    clear : (p ≤ src) ⊎ (src + suc (length bs) < p) → (p < src + 1) ⊎ (src + 1 + length bs < p)
    clear (inl a) = inl (omega arith)
    clear (inr a) = inr (omega arith)

    next :
        (p ≤ src) ⊎ (src + suc (length bs) < p) → (p + 1 ≤ src + 1) ⊎ (src + 1 + length bs < p + 1)
    next (inl a) = inl (omega arith)
    next (inr a) = inr (omega arith)

-- If `dst` does not lie inside of the string at `src` behind its first byte, and with fuel above the
-- length of the string, `strcpy` returns: the string with its 0 has moved to `dst`, and every other
-- byte is as it was.
strcpy-moved :
    (fuel dst src : ℕ) (m : ℕ → ℕ) (bs : List ℕ)
    → IsString m src bs
    → (dst ≤ src) ⊎ (src + length bs < dst)
    → length bs < fuel
    → (m' : ℕ → ℕ) × (strcpy fuel dst src m ≡ ok m')
      × ((q : ℕ) → m' q ≡ moved dst src (length bs + 1) m q)
strcpy-moved fuel dst src m bs h a f = (
  copy_up dst src (suc (length bs)) m,
  strcpy-copy_up fuel dst src m bs h a f,
  λ q. copy_up-moved dst src (suc (length bs)) m q (apart a) ∙ ground arith,
)
  where
    apart : (dst ≤ src) ⊎ (src + length bs < dst) → (dst ≤ src) ⊎ (src + suc (length bs) ≤ dst)
    apart (inl a) = inl a
    apart (inr a) = inr (omega arith)

-- The address of the first byte `c` of the string at `s`.
unfoldable pub locate : ℕ → ℕ → List ℕ → Option ℕ
locate s c [] = none
locate s c (b ∷ bs) = if b == c then some s else locate (s + 1) c bs

strchr-locate :
    (fuel s c : ℕ) (m : ℕ → ℕ) (bs : List ℕ)
    → IsString m s bs
    → length bs < fuel
    → strchr fuel s c m ≡ ok (locate s c bs)
unfolding strchr locate
strchr-locate zero s c m bs h f = absurd (omega arith)
strchr-locate (suc fuel) s c m [] h f = ground arith
strchr-locate (suc fuel) s c m (b ∷ bs) h f =
    ground (arith, strchr-locate fuel (s + 1) c m bs h.2, h.0, h.1)

abbrev pub or_end : Option ℕ → ℕ → ℕ
or_end none e = e
or_end (some p) e = p

strfind-locate :
    (fuel s c : ℕ) (m : ℕ → ℕ) (bs : List ℕ)
    → IsString m s bs
    → length bs < fuel
    → strfind fuel s c m ≡ ok (or_end (locate s c bs) (s + length bs))
unfolding strfind locate
strfind-locate zero s c m bs h f = absurd (omega arith)
strfind-locate (suc fuel) s c m [] h f = ground arith
strfind-locate (suc fuel) s c m (b ∷ bs) h f =
    let more : (m s == 0) ≡ false = ground (arith, h.0, h.1) in
    let end : s + 1 + length bs ≡ s + suc (length bs) = omega arith in
    elim (Bool-cases (b == c)) [
      | inl hit ↦ let hit' : (m s == c) ≡ true = ground (arith, h.0) in rw (more, hit', hit) refl
      | inr miss ↦
          let miss' : (m s == c) ≡ false = ground (arith, h.0) in
          rw (more, miss', miss, ← end) (strfind-locate fuel (s + 1) c m bs h.2 (omega arith))
    ]

-- With fuel above the length of the string `strchr` returns the address of its first byte `c`, NULL
-- if it has none, and `strfind` the same address or else that of the 0 at the end.
strfind-strchr :
    (fuel s c : ℕ) (m : ℕ → ℕ) (bs : List ℕ)
    → IsString m s bs
    → length bs < fuel
    → (strchr fuel s c m ≡ ok (locate s c bs))
      × (strfind fuel s c m ≡ ok (or_end (locate s c bs) (s + length bs)))
strfind-strchr fuel s c m bs h f =
    (strchr-locate fuel s c m bs h f, strfind-locate fuel s c m bs h f)
