-- ===== src/Monitor/Words.antt =====
-- What `parse` of kern/debug/kmonitor.c makes of a text of words.
use os_lab.Base.{
  ℕ, zero, suc, ◌+◌, ◌<◌, ◌≤◌, ◌≡◌, refl, subst, ◌∙◌, ap, List, [], ◌∷◌, length, Bool, true, false,
  ok, ◌==◌, ◌&&◌, not, arith,
}
use os_lab.Links.{update}
use os_lab.Monitor.{is_white, skip_white, skip_word, parse}

-- `n` blanks stand at `s`, or `n` characters of a word.
abbrev pub HasWhite : (ℕ → ℕ) → ℕ → ℕ → Type 0
HasWhite m s zero = Unit {0}
HasWhite m s (suc n) = (is_white (m s) ≡ true) × HasWhite m (s + 1) n

abbrev pub in_word : ℕ → Bool
in_word c = not (c == 0) && not (is_white c)

abbrev pub HasWord : (ℕ → ℕ) → ℕ → ℕ → Type 0
HasWord m s zero = Unit {0}
HasWord m s (suc n) = (in_word (m s) ≡ true) × HasWord m (s + 1) n

-- A text from `s` on: for each word the number of blanks in front of it, and that of its characters
-- behind the first one; behind the last word `tail` blanks and a 0.
abbrev pub HasText : (ℕ → ℕ) → ℕ → ℕ → List (ℕ × ℕ) → Type 0
HasText m s tail [] = HasWhite m s tail × (m (s + tail) ≡ 0)
HasText m s tail (w ∷ ws) =
    HasWhite m s w.0
    × HasWord m (s + w.0) (suc w.1)
    × (in_word (m (s + w.0 + suc w.1)) ≡ false)
    × HasText m (s + w.0 + suc w.1) tail ws

-- Where the words begin.
abbrev pub starts : ℕ → List (ℕ × ℕ) → List ℕ
starts s [] = []
starts s (w ∷ ws) = (s + w.0) ∷ starts (s + w.0 + suc w.1) ws

HasWhite-frame :
    (m m' : ℕ → ℕ) (s n : ℕ) → ((q : ℕ) → s ≤ q → m' q ≡ m q) → HasWhite m s n → HasWhite m' s n
HasWhite-frame m m' s zero a h = tt
HasWhite-frame m m' s (suc n) a h = (
  ap is_white (a s (omega arith)) ∙ h.0,
  HasWhite-frame m m' (s + 1) n (λ q l. a q (omega (arith, l))) h.1,
)

HasWord-frame :
    (m m' : ℕ → ℕ) (s n : ℕ) → ((q : ℕ) → s ≤ q → m' q ≡ m q) → HasWord m s n → HasWord m' s n
HasWord-frame m m' s zero a h = tt
HasWord-frame m m' s (suc n) a h = (
  ap in_word (a s (omega arith)) ∙ h.0,
  HasWord-frame m m' (s + 1) n (λ q l. a q (omega (arith, l))) h.1,
)

is_white-text : (c : ℕ) → is_white c ≡ true → (not (c == 0) && is_white c) ≡ true
is_white-text c h = ground (arith, h)

skip_white-lem :
    (fuel s n : ℕ) (m : ℕ → ℕ)
    → n < fuel
    → HasWhite m s n
    → (not (m (s + n) == 0) && is_white (m (s + n))) ≡ false
    → (m' : ℕ → ℕ) × (skip_white fuel s m ≡ ok (s + n, m')) × ((q : ℕ) → s + n ≤ q → m' q ≡ m q)
unfolding skip_white
skip_white-lem zero s n m f h e = absurd (omega arith)
skip_white-lem (suc fuel) s zero m f h e =
    (m, rw (skip_white, here) (ap (λ x. ok (x, m)) (omega arith)), λ q l. refl)
  where
    here : (not (m s == 0) && is_white (m s)) ≡ false
    here = subst (λ k. (not (m k == 0) && is_white (m k)) ≡ false) (omega arith) e
skip_white-lem (suc fuel) s (suc n) m f h e =
    let (m', run, same) = skip_white-lem fuel (s + 1) n (update m s 0) (omega arith) white there in
    (
      m',
      rw (skip_white, white-here) (run ∙ ap (λ x. ok (x, m')) (omega arith)),
      λ q l. same q (omega (arith, l)) ∙ after q (omega (arith, l)),
    )
  where
    after : (q : ℕ) → s + 1 ≤ q → update m s 0 q ≡ m q
    after q l = ground (arith, l)

    white : HasWhite (update m s 0) (s + 1) n
    white = HasWhite-frame m (update m s 0) (s + 1) n after h.1

    there : (not (update m s 0 (s + 1 + n) == 0) && is_white (update m s 0 (s + 1 + n))) ≡ false
    there =
        rw (after (s + 1 + n) (omega arith))
          (subst (λ k. (not (m k == 0) && is_white (m k)) ≡ false) (omega arith) e)

    white-here : (not (m s == 0) && is_white (m s)) ≡ true
    white-here = is_white-text (m s) h.0

skip_word-lem :
    (fuel s n : ℕ) (m : ℕ → ℕ)
    → n < fuel
    → HasWord m s n
    → in_word (m (s + n)) ≡ false
    → skip_word fuel s m ≡ ok (s + n)
unfolding skip_word
skip_word-lem zero s n m f h e = absurd (omega arith)
skip_word-lem (suc fuel) s zero m f h e = rw (skip_word, here) (ap ok (omega arith))
  where
    here : in_word (m s) ≡ false
    here = subst (λ k. in_word (m k) ≡ false) (omega arith) e
skip_word-lem (suc fuel) s (suc n) m f h e =
    rw (skip_word, h.0)
      (skip_word-lem fuel (s + 1) n m (omega arith) h.1
          (subst (λ k. in_word (m k) ≡ false) (omega arith) e)
        ∙ ap ok (omega arith))

starts-length : (s : ℕ) (ws : List (ℕ × ℕ)) → length (starts s ws) ≡ length ws
starts-length s [] = refl
starts-length s (w ∷ ws) = ap suc (starts-length (s + w.0 + suc w.1) ws)

-- Both inner loops are over before the fuel is.
abbrev pub IsShort : ℕ → ℕ → List (ℕ × ℕ) → Type 0
IsShort fuel tail [] = tail < fuel
IsShort fuel tail (w ∷ ws) = (w.0 < fuel) × (suc w.1 < fuel) × IsShort fuel tail ws

HasText-frame :
    (m m' : ℕ → ℕ) (s tail : ℕ) (ws : List (ℕ × ℕ))
    → ((q : ℕ) → s ≤ q → m' q ≡ m q)
    → HasText m s tail ws
    → HasText m' s tail ws
HasText-frame m m' s tail [] a h =
    (HasWhite-frame m m' s tail a h.0, a (s + tail) (omega arith) ∙ h.1)
HasText-frame m m' s tail (w ∷ ws) a h = (
  HasWhite-frame m m' s w.0 a h.0,
  HasWord-frame m m' (s + w.0) (suc w.1) (λ q l. a q (omega (arith, l))) h.1,
  ap in_word (a (s + w.0 + suc w.1) (omega arith)) ∙ h.2,
  HasText-frame m m' (s + w.0 + suc w.1) tail ws (λ q l. a q (omega (arith, l))) h.3,
)

zero_text : (c : ℕ) → c ≡ 0 → (not (c == 0) && is_white c) ≡ false
zero_text c h = ground (arith, h)

in_word-text :
    (c : ℕ) → in_word c ≡ true → ((not (c == 0) && is_white c) ≡ false) × ((c == 0) ≡ false)
in_word-text c h = (ground (arith, h), ground (arith, h))

parse-starts :
    (rounds fuel s tail : ℕ) (m : ℕ → ℕ) (ws : List (ℕ × ℕ))
    → length ws < rounds
    → IsShort fuel tail ws
    → HasText m s tail ws
    → (m' : ℕ → ℕ) × (parse rounds fuel s m ≡ ok (starts s ws, m'))
unfolding parse
parse-starts zero fuel s tail m ws r f h = absurd (omega arith)
parse-starts (suc rounds) fuel s tail m [] r f h =
    let (m', run, same) = skip_white-lem fuel s tail m f h.0 (zero_text (m (s + tail)) h.1) in
    let stop : (m' (s + tail) == 0) ≡ true = rw (same (s + tail) (omega arith), h.1) refl in
    (m', rw (parse, run, stop))
parse-starts (suc rounds) fuel s tail m (w ∷ ws) r f h =
    let (blank, char) = in_word-text (m (s + w.0)) h.1.0 in
    let (m1, run, same) = skip_white-lem fuel s w.0 m f.0 h.0 blank in
    let here : (m1 (s + w.0) == 0) ≡ false = rw (same (s + w.0) (omega arith)) char in
    let word =
      skip_word-lem fuel (s + w.0) (suc w.1) m1 f.1
        (HasWord-frame m m1 (s + w.0) (suc w.1) same h.1)
        (ap in_word (same (s + w.0 + suc w.1) (omega arith)) ∙ h.2) in
    let (m', rest) =
      parse-starts rounds fuel (s + w.0 + suc w.1) tail m1 ws (omega arith) f.2
        (HasText-frame m m1 (s + w.0 + suc w.1) tail ws (λ q l. same q (omega (arith, l))) h.3) in
    (m', rw (parse, run, here, word, rest))

-- `parse`, with fuel above the length of every word and every gap and above the number of words,
-- stores at `argv[0]`, `argv[1]` and so on where the words begin, one pointer for each word,
-- however many there are.
pub parse-lem :
    (rounds fuel s tail : ℕ) (m : ℕ → ℕ) (ws : List (ℕ × ℕ))
    → length ws < rounds
    → IsShort fuel tail ws
    → HasText m s tail ws
    → (r : List ℕ × (ℕ → ℕ)) × (parse rounds fuel s m ≡ ok r)
      × (r.0 ≡ starts s ws)
      × (length r.0 ≡ length ws)
parse-lem rounds fuel s tail m ws r f h =
    let (m', run) = parse-starts rounds fuel s tail m ws r f h in
    ((starts s ws, m'), run, refl, starts-length s ws)
