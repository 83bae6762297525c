-- ===== src/Proc/Switch/Turns.antt =====
-- Repeated calls of `schedule` in kern/schedule/sched.c: every runnable process has its turn.
use mathlib.Core.List.{append_assoc}
use os_lab.Base.{
  ℕ, zero, suc, ◌+◌, ◌<◌, ◌≤◌, ◌≡◌, ◌≢◌, ◌⊎◌, inl, inr, refl, sym, ap, subst, ◌∙◌, Bool, true,
  false, List, [], ◌∷◌, ◌++◌, has, has-append, has-split, length, length-append, Run, ok, ◌>>=◌,
  Bool-cases, arith,
}
use os_lab.Links.Chain.{Ring}
use os_lab.Proc.{Kernel, is_runnable}
use os_lab.Proc.Switch.{schedule}
use os_lab.Proc.Switch.Elect.{Scheduled, elect, schedule-idle, schedule-round}

-- What happens between two calls leaves the list, the current process and the states alone.
pub record Undisturbed (s t : Kernel) : Type 0 where
  pub same_links : t.links ≡ s.links
  pub same_idle : t.idleproc ≡ s.idleproc
  pub same_current : t.current ≡ s.current
  pub same_states : (p : ℕ) → (t.proc p).state ≡ (s.proc p).state

-- `k` calls, each followed by what `between` does.
unfoldable pub turns : ℕ → (ℕ → Kernel → Kernel) → ℕ → Kernel → Run Kernel
turns fuel between zero s = ok s
turns fuel between (suc k) s =
    schedule fuel s >>= λ r. turns fuel (λ j. between (suc j)) k (between 0 r.1)

-- The processes of `xs` in the order in which `schedule` looks at them for the process `c`.
record Order (xs : List ℕ) (c : ℕ) (l : List ℕ) : Type 0 where
  front : List ℕ
  back : List ℕ
  split : xs ≡ front ++ c ∷ back
  order : l ≡ back ++ (front ++ c ∷ [])

abbrev Looks : Kernel → List ℕ → List ℕ → Type 0
Looks s xs l =
    ((s.current ≡ s.idleproc) × (l ≡ xs)) ⊎ ((s.current ≢ s.idleproc) × Order xs s.current l)

-- Where a list is split in two ways.
data Splits (b a f1 f2 : List ℕ) (n : ℕ) : Type 0 where
  in_first : (b2 : List ℕ) → b ≡ f1 ++ n ∷ b2 → f2 ≡ b2 ++ a → Splits b a f1 f2 n
  in_second : (a1 : List ℕ) → a ≡ a1 ++ n ∷ f2 → f1 ≡ b ++ a1 → Splits b a f1 f2 n

head_of : List ℕ → ℕ
head_of [] = 0
head_of (x ∷ xs) = x

abbrev tail_of : List ℕ → List ℕ
tail_of [] = []
tail_of (x ∷ xs) = xs

Splits-append : (b a f1 f2 : List ℕ) (n : ℕ) → b ++ a ≡ f1 ++ n ∷ f2 → Splits b a f1 f2 n
Splits-append [] a f1 f2 n e = in_second f1 e refl
Splits-append (x ∷ b) a [] f2 n e = in_first b (cc) (sym (ap tail_of e))
Splits-append (x ∷ b) a (y ∷ f1) f2 n e = elim (Splits-append b a f1 f2 n (ap tail_of e)) [
  | in_first b2 p q ↦ in_first b2 (cc) q
  | in_second a1 p q ↦ in_second a1 p (cc)
]

-- The order for a later process of the order is the same circle.
Order-turn :
    (xs l f1 f2 : List ℕ) (c n : ℕ)
    → Order xs c l
    → l ≡ f1 ++ n ∷ f2
    → Order xs n (f2 ++ (f1 ++ n ∷ []))
Order-turn xs l f1 f2 c n o e =
    elim (Splits-append o.back (o.front ++ c ∷ []) f1 f2 n (sym o.order ∙ e)) [
      | in_first b2 p q ↦ record {
        front = o.front ++ c ∷ f1;
        back = b2;
        split = o.split ∙ rw (p, append_assoc) refl;
        order = rw q (simp append_assoc);
      }
      | in_second a1 p q ↦ record {
        front = a1;
        back = f2 ++ o.back;
        split = o.split ∙ circle a1 p;
        order = rw q (simp append_assoc);
      }
    ]
  where
    circle :
        (a1 : List ℕ)
        → o.front ++ c ∷ [] ≡ a1 ++ n ∷ f2
        → o.front ++ c ∷ o.back ≡ a1 ++ n ∷ (f2 ++ o.back)
    circle a1 p =
        sym (append_assoc o.front (c ∷ []) o.back)
        ∙ ap (λ (k : List ℕ). k ++ o.back) p
        ∙ append_assoc a1 (n ∷ f2) o.back

-- The election in front of a runnable process.
elect-front :
    (s : Kernel) (p : ℕ) (front back : List ℕ)
    → is_runnable (s.proc p).state ≡ true
    → (elect s (front ++ p ∷ back) ≡ p)
      ⊎ ((n : ℕ) × (f1 : List ℕ) × (f2 : List ℕ) × (front ≡ f1 ++ n ∷ f2)
          × (elect s (front ++ p ∷ back) ≡ n))
unfolding elect
elect-front s p [] back r = inl (rw r refl)
elect-front s p (x ∷ front) back r = elim (Bool-cases (is_runnable (s.proc x).state)) [
  | inl e ↦ inr (x, [], front, refl, rw e refl)
  | inr e ↦ elim (elect-front s p front back r) [
    | inl q ↦ inl (rw e q)
    | inr (n, f1, f2, q, v) ↦ inr (n, x ∷ f1, f2, ap (λ (l : List ℕ). x ∷ l) q, rw e v)
  ]
]

-- One call of `schedule`, by the idle process or by one of the list.
schedule-Looks :
    (fuel : ℕ) (s : Kernel) (xs l : List ℕ)
    → Ring s.links 0 xs
    → length xs < fuel
    → Looks s xs l
    → (r : List Bool × Kernel) × (schedule fuel s ≡ ok r) × Scheduled s r (elect s l)
schedule-Looks fuel s xs l r f (inl (i, e)) = rw e (schedule-idle fuel s xs r i f)
schedule-Looks fuel s xs l r f (inr (i, o)) = rw o.order (
    schedule-round fuel s o.front o.back (subst (Ring s.links 0) o.split r) i
      (subst (λ (k : List ℕ). length k < fuel) o.split f))

Order-member : (i n : ℕ) (xs l : List ℕ) → has i xs ≡ false → Order xs n l → n ≢ i
Order-member i n xs l d o z =
    let e : has i (o.front ++ n ∷ o.back) ≡ false =
      subst (λ (k : List ℕ). has i k ≡ false) o.split d in
    ground (arith, e, has-append i o.front (n ∷ o.back), z)

turn-Order :
    (s : Kernel) (xs l f1 f2 : List ℕ) (n : ℕ)
    → Looks s xs l
    → l ≡ f1 ++ n ∷ f2
    → Order xs n (f2 ++ (f1 ++ n ∷ []))
turn-Order s xs l f1 f2 n (inl (i, q)) e = record {
  front = f1;
  back = f2;
  split = sym q ∙ e;
  order = refl;
}
turn-Order s xs l f1 f2 n (inr (i, o)) e = Order-turn xs l f1 f2 s.current n o e

turn-Looks :
    (s t : Kernel) (xs l f1 f2 : List ℕ) (n : ℕ)
    → has s.idleproc xs ≡ false
    → Looks s xs l
    → l ≡ f1 ++ n ∷ f2
    → t.current ≡ n
    → t.idleproc ≡ s.idleproc
    → Looks t xs (f2 ++ (f1 ++ n ∷ []))
turn-Looks s t xs l f1 f2 n d k e c i =
    let o = turn-Order s xs l f1 f2 n k e in
    inr (rw (c, i) (Order-member s.idleproc n xs (f2 ++ (f1 ++ n ∷ [])) d o), rw c o)

-- At most as many calls as the order has processes up to `p` elect it.
turns-reach :
    (d fuel : ℕ) (between : ℕ → Kernel → Kernel) (s : Kernel) (xs l front back : List ℕ) (p : ℕ)
    → Ring s.links 0 xs
    → has s.idleproc xs ≡ false
    → length xs < fuel
    → Looks s xs l
    → l ≡ front ++ p ∷ back
    → is_runnable (s.proc p).state ≡ true
    → ((j : ℕ) (u : Kernel) → Undisturbed u (between j u))
    → length front < d
    → (k : ℕ) × (t : Kernel) × (turns fuel between k s ≡ ok t)
      × (t.current ≡ p)
      × (0 < k)
      × (k ≤ length front + 1)
unfolding turns
turns-reach zero fuel between s xs l front back p r i f k e a u b = absurd (omega (arith, b))
turns-reach (suc d) fuel between s xs l front back p r i f k e a u b =
    let (v, run, c) = schedule-Looks fuel s xs l r f k in
    let t = between 0 v.1 in
    let q = u 0 v.1 in
    let links : t.links ≡ s.links = q.same_links ∙ c.same_links in
    let idle : t.idleproc ≡ s.idleproc = q.same_idle ∙ c.same_idle in
    let now : t.current ≡ elect s l = q.same_current ∙ c.current in
    elim (elect-front s p front back a) [
      | inl hit ↦ (1, t, rw run refl, now ∙ ap (elect s) e ∙ hit, omega arith, omega arith)
      | inr (n, f1, f2, split, hit) ↦
          let at : t.current ≡ n = now ∙ ap (elect s) e ∙ hit in
          let order : l ≡ f1 ++ n ∷ (f2 ++ p ∷ back) = e ∙ rw (split, append_assoc) refl in
          let len : length front ≡ length f1 + suc (length f2) =
            ap (λ (k : List ℕ). length k) split ∙ length-append f1 (n ∷ f2) in
          let (j, w, more, there, some, bound) =
            turns-reach d fuel (λ j. between (suc j)) t xs ((f2 ++ p ∷ back) ++ (f1 ++ n ∷ [])) f2
              (back ++ (f1 ++ n ∷ [])) p (subst (λ h. Ring h 0 xs) (sym links) r) (rw idle i) f
              (turn-Looks s t xs l f1 (f2 ++ p ∷ back) n i k order at idle)
              (append_assoc f2 (p ∷ back) (f1 ++ n ∷ [])) (rw (q.same_states p, c.states p) a)
              (λ j. u (suc j)) (omega (arith, len, b)) in
          (suc j, w, rw run more, there, omega arith, omega (arith, len, bound))
    ]

-- The order in which `schedule` looks, with the same processes.
find-Looks :
    (s : Kernel) (xs : List ℕ) (p : ℕ)
    → has s.idleproc xs ≡ false
    → (s.current ≡ s.idleproc) ⊎ (has s.current xs ≡ true)
    → has p xs ≡ true
    → (l : List ℕ) × Looks s xs l × (has p l ≡ true) × (length l ≡ length xs)
find-Looks s xs p i (inl e) h = (xs, inl (e, refl), h, refl)
find-Looks s xs p i (inr m) h =
    let (front, back, q) = has-split s.current xs m in
    let c = s.current in
    let l = back ++ (front ++ c ∷ []) in
    let o : Order xs c l = record { front = front; back = back; split = q; order = refl } in
    let all : has p (front ++ c ∷ back) ≡ true = subst (λ (k : List ℕ). has p k ≡ true) q h in
    (
      l,
      inr (Order-member s.idleproc c xs l i o, o),
      ground (
        arith,
        all,
        has-append p front (c ∷ back),
        has-append p back (front ++ c ∷ []),
        has-append p front (c ∷ []),
      ),
      omega (
        arith,
        ap (λ (k : List ℕ). length k) q,
        length-append front (c ∷ back),
        length-append back (front ++ c ∷ []),
        length-append front (c ∷ []),
      ),
    )

-- Let the list of processes be well formed, without the idle process, and the call come from the idle
-- process or from one of the list. If what happens between the calls leaves the list, the current
-- process and the states alone, and with fuel above the number of processes, every runnable process
-- of the list is elected by at least one and at most as many calls of `schedule` as the list has
-- processes, and these calls return.
pub schedule-turns :
    (fuel : ℕ) (between : ℕ → Kernel → Kernel) (s : Kernel) (xs : List ℕ) (p : ℕ)
    → Ring s.links 0 xs
    → has s.idleproc xs ≡ false
    → (s.current ≡ s.idleproc) ⊎ (has s.current xs ≡ true)
    → has p xs ≡ true
    → is_runnable (s.proc p).state ≡ true
    → ((j : ℕ) (u : Kernel) → Undisturbed u (between j u))
    → length xs < fuel
    → (k : ℕ) × (t : Kernel) × (turns fuel between k s ≡ ok t)
      × (t.current ≡ p)
      × (0 < k)
      × (k ≤ length xs)
schedule-turns fuel between s xs p r i c h a u f =
    let (l, looks, member, size) = find-Looks s xs p i c h in
    let (front, back, q) = has-split p l member in
    let (k, t, run, at, some, bound) =
      turns-reach (suc (length front)) fuel between s xs l front back p r i f looks q a u
        (omega arith) in
    let len : length l ≡ length front + suc (length back) =
      ap (λ (k : List ℕ). length k) q ∙ length-append front (p ∷ back) in
    (k, t, run, at, some, omega (arith, bound, len, size))
