-- ===== src/Print/Flags.antt =====
-- The flags of a %-escape of libs/printfmt.c: the walk over them ends, behind the same '%'.
use os_lab.Base.{
  ℕ, zero, suc, ◌+◌, ◌-◌, ◌*◌, ◌%◌, ◌^◌, ◌⊎◌, [], ◌∷◌, ◌<◌, ◌≤◌, ◌≡◌, ◌≢◌, refl, subst, List, Bool,
  true, false, Option, none, some, Run, ok, leb, ltb, ◌==◌, ◌&&◌, ◌||◌, ◌>>=◌, if◌then◌else◌, arith,
  pos, Bool-cases, inl, inr,
}
use os_lab.Print.Escape.{next_arg, Spec, read_width, read_flag, escape, back_up, with_precision}

-- No '%' stands from `a` up to `b`.
abbrev pub NoPercent : (ℕ → ℕ) → ℕ → ℕ → Type 0
NoPercent m a b = (j : ℕ) → a ≤ j → j < b → m j ≢ 37

-- Not ten digits in a row stand at `q`.
abbrev pub HasShortRun : (ℕ → ℕ) → ℕ → Type 0
HasShortRun m q = (k : ℕ) × (k < 10) × ((ltb (m (q + k)) b'0' || ltb b'9' (m (q + k))) ≡ true)

-- As `int`, no argument lies within `room` of INT_MIN.
abbrev pub FarArgs : ℕ → List ℕ → Type 0
FarArgs room [] = Unit
FarArgs room (a ∷ args) = ((a % 2 ^ 32 < 2 ^ 31) ⊎ (2 ^ 31 + room < a % 2 ^ 32)) × FarArgs room args

pub next_arg-FarArgs :
    (room : ℕ) (args : List ℕ)
    → FarArgs room args
    → ((next_arg args).0 % 2 ^ 32 ≢ 2 ^ 31) × FarArgs room (next_arg args).1
next_arg-FarArgs room [] f = (omega arith, tt)
next_arg-FarArgs room (a ∷ args) (inl l, f) = (omega (arith, l), f)
next_arg-FarArgs room (a ∷ args) (inr l, f) = (omega (arith, l), f)

-- `i` more digits behind `val` make a number below 10^9.
abbrev Bounded : ℕ → ℕ → Type 0
Bounded zero val = val < 10 ^ 9
Bounded (suc i) val = Bounded i (val * 10 + 9)

Bounded-le : (i v w : ℕ) → v ≤ w → Bounded i w → Bounded i v
Bounded-le zero v w l b = omega (arith, b)
Bounded-le (suc i) v w l b = Bounded-le i (v * 10 + 9) (w * 10 + 9) (omega (arith, l)) b

Bounded-lt : (i v : ℕ) → Bounded i v → v < 10 ^ 9
Bounded-lt zero v b = b
Bounded-lt (suc i) v b = omega (arith, Bounded-lt i (v * 10 + 9) b)

Bounded-nine : (i : ℕ) → i < 9 → Bounded i 9
Bounded-nine zero l = omega arith
Bounded-nine (suc zero) l = omega arith
Bounded-nine (suc (suc zero)) l = omega arith
Bounded-nine (suc (suc (suc zero))) l = omega arith
Bounded-nine (suc (suc (suc (suc zero)))) l = omega arith
Bounded-nine (suc (suc (suc (suc (suc zero))))) l = omega arith
Bounded-nine (suc (suc (suc (suc (suc (suc zero)))))) l = omega arith
Bounded-nine (suc (suc (suc (suc (suc (suc (suc zero))))))) l = omega arith
Bounded-nine (suc (suc (suc (suc (suc (suc (suc (suc zero)))))))) l = omega arith
Bounded-nine (suc (suc (suc (suc (suc (suc (suc (suc (suc i))))))))) l = absurd (omega (arith, l))

read_width-ends :
    (fuel k val q i : ℕ) (m : ℕ → ℕ)
    → k < fuel
    → Bounded i val
    → (ltb (m (q + i)) 48 || ltb 57 (m (q + i))) ≡ true
    → m (q + k) ≡ 0
    → (v : ℕ) × (q' : ℕ) × (read_width fuel val q m ≡ ok (v, q'))
      × (q ≤ q')
      × (q' ≤ q + k)
      × NoPercent m q q'
unfolding read_width
read_width-ends zero k val q i m f b s z = absurd (omega arith)
read_width-ends (suc fuel) zero val q i m f b s z =
    (val, q, rw (read_width, z'), omega arith, omega arith, λ j l h. absurd (omega (arith, l, h)))
  where
    z' : m q ≡ 0
    z' = subst (λ p. m p ≡ 0) (omega arith) z
read_width-ends (suc fuel) (suc k) val q zero m f b s z =
    let here : (ltb (m q) 48 || ltb 57 (m q)) ≡ true =
      subst (λ p. (ltb (m p) 48 || ltb 57 (m p)) ≡ true) (omega arith) s in
    (val, q, rw (read_width, here), omega arith, omega arith, λ j l h. absurd (omega (arith, l, h)))
read_width-ends (suc fuel) (suc k) val q (suc i) m f b s z =
    elim (Bool-cases (ltb (m q) 48 || ltb 57 (m q))) [
      | inl e ↦ (
        val,
        q,
        rw (read_width, e),
        omega arith,
        omega arith,
        λ j l h. absurd (omega (arith, l, h)),
      )
      | inr e ↦
          let low_sum : leb (2 ^ 31) (val * 10 + m q) ≡ false =
            ground (arith, e, Bounded-lt i (val * 10 + 9) b) in
          let (v, q', run, low, high, clear) =
            read_width-ends fuel k (val * 10 + m q - 48) (q + 1) i m (omega (arith, f))
              (Bounded-le i (val * 10 + m q - 48) (val * 10 + 9) (ground (arith, e)) b)
              (subst (λ p. (ltb (m p) 48 || ltb 57 (m p)) ≡ true) (omega arith) s)
              (subst (λ p. m p ≡ 0) (omega arith) z) in
          (
            v,
            q',
            rw (read_width, e, low_sum) run,
            omega (arith, low),
            omega (arith, high),
            λ j l h. elim (Bool-cases (j == q)) [
              | inl s ↦ λ x. ground (arith, s, e, x)
              | inr s ↦ clear j (ground (arith, s, l)) h
            ],
          )
    ]

-- What `read_flag` comes to at `q`, `k` characters in front of the end.
data Flag (room : ℕ) (m : ℕ → ℕ) (q k : ℕ) (r : Run (Option (Spec × List ℕ × ℕ))) : Type 0 where
  conversion : r ≡ ok none → Flag room m q k r
  flag :
      (spec : Spec) (args : List ℕ) (q' : ℕ)
      → r ≡ ok (some (spec, args, q'))
      → q < q'
      → q' ≤ q + k
      → NoPercent m q q'
      → FarArgs room args
      → Flag room m q k r

one_char : (m : ℕ → ℕ) (q : ℕ) → m q ≢ 37 → NoPercent m q (q + 1)
one_char m q n j l h = subst (λ p. m p ≢ 37) (omega (arith, l, h)) n

module _ (room : ℕ) (m : ℕ → ℕ) (q k : ℕ) (z : m (q + k) ≡ 0) where
  Flag-if :
      (b : Bool) (x y : Run (Option (Spec × List ℕ × ℕ)))
      → (b ≡ true → Flag room m q k x)
      → (b ≡ false → Flag room m q k y)
      → Flag room m q k (if b then x else y)
  Flag-if true x y f g = f refl
  Flag-if false x y f g = g refl

  not_end : m q ≢ 0 → 0 < k
  not_end n = elim (Bool-cases (k == 0)) [
    | inl e ↦ absurd (n (subst (λ p. m p ≡ 0) (ground (arith, e)) z))
    | inr e ↦ ground (arith, e)
  ]

  Flag-one :
      (spec : Spec) (args : List ℕ)
      → m q ≢ 37
      → m q ≢ 0
      → FarArgs room args
      → Flag room m q k (ok (some (spec, args, q + 1)))
  Flag-one spec args n e far =
      flag spec args (q + 1) refl (omega arith) (omega (arith, not_end e)) (one_char m q n) far

  Flag-width :
      (fuel : ℕ) (spec : Spec) (args : List ℕ)
      → k < suc fuel
      → (leb 49 (m q) && leb (m q) 57) ≡ true
      → HasShortRun m q
      → FarArgs room args
      → Flag room m q k (
          read_width fuel (m q - 48) (q + 1) m >>= λ r.
          ok (some (with_precision (pos r.0) spec, args, r.1)))
  Flag-width fuel spec args f digit (i, few, s) far =
      let n : m q ≢ 37 = λ x. ground (arith, digit, x) in
      let e : m q ≢ 0 = λ x. ground (arith, digit, x) in
      let more : 0 < i = first_digit i digit s in
      let (v, q', run, low, high, clear) =
        read_width-ends fuel (k - 1) (m q - 48) (q + 1) (i - 1) m (omega (arith, f, not_end e))
          (Bounded-le (i - 1) (m q - 48) 9 (ground (arith, digit))
            (Bounded-nine (i - 1) (omega (arith, few, more))))
          (subst (λ p. (ltb (m p) 48 || ltb 57 (m p)) ≡ true) (omega (arith, more)) s)
          (subst (λ p. m p ≡ 0) (omega (arith, not_end e)) z) in
      flag (with_precision (pos v) spec) args q' (rw run refl) (omega (arith, low))
        (omega (arith, high, not_end e))
        (λ j l h. elim (Bool-cases (j == q)) [
          | inl s ↦ subst (λ p. m p ≢ 37) (ground (arith, s)) n
          | inr s ↦ clear j (ground (arith, s, l)) h
        ])
        far
    where
      first_digit :
          (i : ℕ)
          → (leb 49 (m q) && leb (m q) 57) ≡ true
          → (ltb (m (q + i)) 48 || ltb 57 (m (q + i))) ≡ true
          → 0 < i
      first_digit zero d s =
          let here : (ltb (m q) 48 || ltb 57 (m q)) ≡ true =
            subst (λ p. (ltb (m p) 48 || ltb 57 (m p)) ≡ true) (omega arith) s in
          absurd (ground (arith, d, here))
      first_digit (suc i) d s = omega arith

read_flag-ends :
    (room fuel k q : ℕ) (spec : Spec) (args : List ℕ) (m : ℕ → ℕ)
    → k < suc fuel
    → m (q + k) ≡ 0
    → HasShortRun m q
    → FarArgs room args
    → Flag room m q k (read_flag fuel (m q) (q + 1) spec args m)
unfolding read_flag
read_flag-ends room fuel k q spec args m f z short far =
    let choose = Flag-if room m q k z in
    let one = λ (s : Spec) (n : m q ≢ 37) (e : m q ≢ 0). Flag-one room m q k z s args n e far in
    let (_, far') = next_arg-FarArgs room args far in
    choose (m q == 45) _ _ (λ e. one _ (is 45 e 37 (omega arith)) (is 45 e 0 (omega arith)))
      λ _.
        choose (m q == 48) _ _ (λ e. one _ (is 48 e 37 (omega arith)) (is 48 e 0 (omega arith)))
          λ _.
            choose (leb 49 (m q) && leb (m q) 57) _ _
              (λ e. Flag-width room m q k z fuel spec args f e short far)
              λ _.
                choose (m q == 42) _ _
                  (λ e.
                    Flag-one room m q k z _ _ (is 42 e 37 (omega arith)) (is 42 e 0 (omega arith))
                      far')
                  λ _.
                    choose (m q == 46) _ _
                      (λ e. one _ (is 46 e 37 (omega arith)) (is 46 e 0 (omega arith)))
                      λ _.
                        choose (m q == 35) _ _
                          (λ e. one _ (is 35 e 37 (omega arith)) (is 35 e 0 (omega arith)))
                          λ _.
                            choose (m q == 108) _ _
                              (λ e. one _ (is 108 e 37 (omega arith)) (is 108 e 0 (omega arith)))
                              λ _. conversion refl
  where
    is : (c : ℕ) → (m q == c) ≡ true → (d : ℕ) → c ≢ d → m q ≢ d
    is c e d n x = n (ground (arith, e, x))

-- The walk ends at a character that is none of the flags, at most at the end of the format, and no
-- '%' stands in front of it.
pub escape-ends :
    (room fuel k q : ℕ) (spec : Spec) (args : List ℕ) (m : ℕ → ℕ)
    → k < fuel
    → m (q + k) ≡ 0
    → ((j : ℕ) → q ≤ j → j ≤ q + k → HasShortRun m j)
    → FarArgs room args
    → (r : Spec × List ℕ × ℕ) × (escape fuel q spec args m ≡ ok r)
      × (q ≤ r.2)
      × (r.2 ≤ q + k)
      × NoPercent m q r.2
      × FarArgs room r.1
unfolding escape
escape-ends room zero k q spec args m f z short far = absurd (omega arith)
escape-ends room (suc fuel) k q spec args m f z short far =
    elim (read_flag-ends room fuel k q spec args m f z (short q (omega arith) (omega arith)) far) [
      | conversion e ↦ (
        (spec, args, q),
        rw e refl,
        omega arith,
        omega arith,
        λ j l h. absurd (omega (arith, l, h)),
        far,
      )
      | flag spec' args' q' e low high clear far' ↦
          let (r, run, from, to, free, rest) =
            escape-ends room fuel (q + k - q') q' spec' args' m (omega (arith, f, low, high))
              (subst (λ p. m p ≡ 0) (omega (arith, high)) z)
              (λ j l h. short j (omega (arith, l, low)) (omega (arith, h, high))) far' in
          (
            r,
            rw e run,
            omega (arith, low, from),
            omega (arith, to, high),
            λ j l h. elim (Bool-cases (ltb j q')) [
              | inl s ↦ clear j l (ground (arith, s))
              | inr s ↦ free j (ground (arith, s)) h
            ],
            rest,
          )
    ]

pub back_up-percent :
    (m : ℕ → ℕ) (a q : ℕ) → a < q → m a ≡ 37 → NoPercent m (a + 1) q → back_up q m ≡ a + 1
unfolding back_up
back_up-percent m a zero l p n = absurd (omega arith)
back_up-percent m a (suc q) l p n = elim (Bool-cases (m q == 37)) [
  | inl e ↦ elim (Bool-cases (q == a)) [
    | inl s ↦ rw e (ground (arith, s))
    | inr s ↦ absurd (n q (ground (arith, s, l)) (omega arith) (ground (arith, e)))
  ]
  | inr e ↦ elim (Bool-cases (q == a)) [
    | inl s ↦ absurd (ground (arith, s, e, p))
    | inr s ↦
        rw e (back_up-percent m a q (ground (arith, s, l)) p (λ j i h. n j i (omega (arith, h))))
  ]
]
