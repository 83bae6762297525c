-- ===== src/Proc/Pid/Fresh.antt =====
-- `get_pid` of kern/process/proc.c returns, and what it returns is no process's `pid`.
use os_lab.Base.{
  ℕ, zero, suc, ◌+◌, ◌-◌, ◌*◌, ◌≤◌, ◌<◌, ◌≡◌, refl, ◌∙◌, ◌⊎◌, inl, inr, Bool, true, false, ◌&&◌,
  ◌||◌, ltb, leb, ◌==◌, has, List, [], ◌∷◌, length, if◌then◌else◌, Run, ok, ℤ, pos, negsuc, arith,
  Bool-cases,
}
use os_lab.Links.Chain.{Chain, Ring}
use os_lab.Proc.{Kernel, max_pid}
use os_lab.Proc.Pid.{pid_eq, pid_gt, pid_lt, pid_value, walk, repeat, search_pid, get_pid}

-- The `pid` lies outside of the numbers from `lo` to below `hi`.
abbrev pub outside : ℤ → ℕ → ℕ → Bool
outside (pos k) lo hi = ltb k lo || leb hi k
outside (negsuc _) lo hi = true

module _ (s : Kernel) where
  -- No process of the list has a `pid` from `lo` to below `hi`.
  abbrev pub Clear : List ℕ → ℕ → ℕ → Type 0
  Clear [] lo hi = Unit
  Clear (x ∷ xs) lo hi = (outside (s.proc x).pid lo hi ≡ true) × Clear xs lo hi

  -- No process of the list has the `pid` `p`.
  abbrev pub Unused : List ℕ → ℕ → Type 0
  Unused [] p = Unit
  Unused (x ∷ xs) p = (pid_eq (s.proc x).pid p ≡ false) × Unused xs p

  pub Clear-shrink :
      (xs : List ℕ) (lo hi lo' hi' : ℕ) → lo ≤ lo' → hi' ≤ hi → Clear xs lo hi → Clear xs lo' hi'
  Clear-shrink [] lo hi lo' hi' a b c = tt
  Clear-shrink (x ∷ xs) lo hi lo' hi' a b c = (ground arith, Clear-shrink xs lo hi lo' hi' a b c.1)

  pub Clear-Unused : (xs : List ℕ) (lo hi : ℕ) → lo < hi → Clear xs lo hi → Unused xs lo
  Clear-Unused [] lo hi l c = tt
  Clear-Unused (x ∷ xs) lo hi l c = (ground arith, Clear-Unused xs lo hi l c.1)

-- How far the search is from a free number `p`, counting up and then from 1 again.
measure : ℕ → ℕ → ℕ
measure p last = if leb last p then p - last else max_pid - last + p

-- The search has settled on numbers inside of `last` to `next`, clear of the processes `xs`.
record Settled (s : Kernel) (xs : List ℕ) (last next : ℕ) (r : Run (ℕ × ℕ)) : Type 0 where
  low : ℕ
  high : ℕ
  run : r ≡ ok (low, high)
  above : last ≤ low
  below : high ≤ next
  room : low < high
  clear : Clear s xs low high

-- The search starts again, nearer to `p`.
record Restarts (again : ℕ → Run (ℕ × ℕ)) (p last : ℕ) (r : Run (ℕ × ℕ)) : Type 0 where
  start : ℕ
  run : r ≡ again start
  positive : 0 < start
  small : start < max_pid
  nearer : measure p start < measure p last

module _ (s : Kernel) (again : ℕ → Run (ℕ × ℕ)) (p : ℕ) (p_pos : 0 < p) (p_lt : p < max_pid) where
  abbrev Walked : List ℕ → ℕ → ℕ → Run (ℕ × ℕ) → Type 0
  Walked xs last next r = Settled s xs last next r ⊎ Restarts again p last r

  -- What the rest of the walk finds in a narrower range serves for the wider one.
  lift :
      (x last last' next next' : ℕ) (xs : List ℕ) (r r' : Run (ℕ × ℕ))
      → r ≡ r'
      → last ≤ last'
      → next' ≤ next
      → measure p last' ≤ measure p last
      → outside (s.proc x).pid last' next' ≡ true
      → Walked xs last' next' r'
      → Walked (x ∷ xs) last next r
  lift x last last' next next' xs r r' e a b m o (inl w) = inl (record {
    low = w.low;
    high = w.high;
    run = e ∙ w.run;
    above = omega (arith, w.above);
    below = omega (arith, w.below);
    room = w.room;
    clear = (ground (arith, w.above, w.below), w.clear);
  })
  lift x last last' next next' xs r r' e a b m o (inr w) = inr (record {
    start = w.start;
    run = e ∙ w.run;
    positive = w.positive;
    small = w.small;
    nearer = omega (arith, w.nearer);
  })

  module _ (fuel le last next x : ℕ) (at : s.links.next le ≡ x) (on_list : (x == 0) ≡ false) where
    walk-bump :
        pid_eq (s.proc x).pid last ≡ true
        → leb next (last + 1) ≡ false
        → walk again (suc fuel) le last next s ≡ walk again fuel x (last + 1) next s
    unfolding walk
    walk-bump e l = rw (at, on_list, e, l) refl

    walk-restart :
        pid_eq (s.proc x).pid last ≡ true
        → leb next (last + 1) ≡ true
        → walk again (suc fuel) le last next s
          ≡ again (if leb max_pid (last + 1) then 1 else last + 1)
    unfolding walk
    walk-restart e l = rw (at, on_list, e, l) refl

    walk-lower :
        pid_eq (s.proc x).pid last ≡ false
        → (pid_gt (s.proc x).pid last && pid_lt (s.proc x).pid next) ≡ true
        → walk again (suc fuel) le last next s ≡ walk again fuel x last (pid_value (s.proc x).pid) s
    unfolding walk
    walk-lower e l = rw (at, on_list, e, l) refl

    walk-on :
        pid_eq (s.proc x).pid last ≡ false
        → (pid_gt (s.proc x).pid last && pid_lt (s.proc x).pid next) ≡ false
        → walk again (suc fuel) le last next s ≡ walk again fuel x last next s
    unfolding walk
    walk-on e l = rw (at, on_list, e, l) refl

  walk-Walked :
      (fuel le last next : ℕ) (xs : List ℕ)
      → Chain s.links le xs 0
      → has 0 xs ≡ false
      → length xs < fuel
      → Unused s xs p
      → 0 < last
      → last < next
      → next ≤ max_pid
      → Walked xs last next (walk again fuel le last next s)
  unfolding walk measure
  walk-Walked zero le last next xs c z f u a b m = absurd (omega arith)
  walk-Walked (suc fuel) le last next [] c z f u a b m = inl (record {
    low = last;
    high = next;
    run = ground arith;
    above = omega arith;
    below = omega arith;
    room = b;
    clear = tt;
  })
  walk-Walked (suc fuel) le last next (x ∷ xs) c z f u a b m =
      let pid = (s.proc x).pid in
      let on_list : (x == 0) ≡ false = ground arith in
      let here = walk again (suc fuel) le last next s in
      let apart : pid_eq pid p ≡ false = u.0 in
      elim (Bool-cases (pid_eq pid last)) [
        | inl taken ↦
            let p_ne : (p == last) ≡ false = ground arith in
            elim (Bool-cases (leb next (last + 1))) [
              | inl full ↦ inr (record {
                start = if leb max_pid (last + 1) then 1 else last + 1;
                run = walk-restart fuel le last next x c.0.0 on_list taken full;
                positive = ground arith;
                small = ground arith;
                nearer = ground arith;
              })
              | inr room ↦
                  lift x last (last + 1) next next xs here (walk again fuel x (last + 1) next s)
                    (walk-bump fuel le last next x c.0.0 on_list taken room) (omega arith)
                    (omega arith) (ground arith) (ground arith)
                    (walk-Walked fuel x (last + 1) next xs c.1 (ground arith) (omega arith) u.1
                      (omega arith) (ground arith) m)
            ]
        | inr free ↦ elim (Bool-cases (pid_gt pid last && pid_lt pid next)) [
          | inl between ↦
              lift x last last next (pid_value pid) xs here
                (walk again fuel x last (pid_value pid) s)
                (walk-lower fuel le last next x c.0.0 on_list free between) (omega arith)
                (ground arith) (omega arith) (ground arith)
                (walk-Walked fuel x last (pid_value pid) xs c.1 (ground arith) (omega arith) u.1 a
                  (ground arith) (ground arith))
          | inr past ↦
              lift x last last next next xs here (walk again fuel x last next s)
                (walk-on fuel le last next x c.0.0 on_list free past) (omega arith) (omega arith)
                (omega arith) (ground arith)
                (walk-Walked fuel x last next xs c.1 (ground arith) (omega arith) u.1 a b m)
        ]
      ]

-- What the search ends with.
record Found (s : Kernel) (xs : List ℕ) (r : Run (ℕ × ℕ)) : Type 0 where
  low : ℕ
  high : ℕ
  run : r ≡ ok (low, high)
  positive : 0 < low
  room : low < high
  small : high ≤ max_pid
  clear : Clear s xs low high

module _ (s : Kernel) (xs : List ℕ) (fuel p : ℕ) (ring : Ring s.links 0 xs)
    (enough : length xs < fuel) (p_pos : 0 < p) (p_lt : p < max_pid) (unused : Unused s xs p) where
  repeat-Found :
      (rounds start : ℕ)
      → 0 < start
      → start < max_pid
      → measure p start < rounds
      → Found s xs (repeat rounds fuel start s)
  unfolding repeat
  repeat-Found zero start a b m = absurd (omega arith)
  repeat-Found (suc rounds) start a b m =
      settle (λ l h k n. repeat-Found rounds l h k n)
        (walk-Walked s (λ l. repeat rounds fuel l s) p p_pos p_lt fuel 0 start max_pid xs ring.chain
          ring.distinct.0 enough unused a b (omega arith))
    where
      settle :
          ((l : ℕ)
            → 0 < l
            → l < max_pid
            → measure p l < rounds
            → Found s xs (repeat rounds fuel l s))
          → Walked s
              (λ l. repeat rounds fuel l s)
              p
              p_pos
              p_lt
              xs
              start
              max_pid
              (walk (λ l. repeat rounds fuel l s) fuel 0 start max_pid s)
          → Found s xs (walk (λ l. repeat rounds fuel l s) fuel 0 start max_pid s)
      settle ih (inl w) = record {
        low = w.low;
        high = w.high;
        run = w.run;
        positive = omega (arith, w.above);
        room = w.room;
        small = w.below;
        clear = w.clear;
      }
      settle ih (inr w) =
          let f = ih w.start w.positive w.small (omega (arith, w.nearer)) in
          record {
            low = f.low;
            high = f.high;
            run = w.run ∙ f.run;
            positive = f.positive;
            room = f.room;
            small = f.small;
            clear = f.clear;
          }

  measure-lt : (start : ℕ) → 0 < start → start < max_pid → measure p start < 2 * max_pid
  unfolding measure
  measure-lt start a b = ground arith

  search_pid-Found :
      (rounds : ℕ)
      → 2 * max_pid ≤ rounds
      → s.next_safe ≤ max_pid
      → Clear s xs (s.last_pid + 1) s.next_safe
      → Found s xs (search_pid rounds fuel s)
  unfolding search_pid
  search_pid-Found rounds e n c =
      let last = s.last_pid + 1 in
      elim (Bool-cases (leb max_pid last)) [
        | inl over ↦ rw over (
            repeat-Found rounds 1 (omega arith) (omega arith)
              (omega (arith, measure-lt 1 (omega arith) (omega arith))))
        | inr in_range ↦ elim (Bool-cases (leb s.next_safe last)) [
          | inl unsafe ↦
              rw (in_range, unsafe)
                (repeat-Found rounds last (omega arith) (ground arith)
                  (omega (arith, measure-lt last (omega arith) (ground arith))))
          | inr safe ↦
              rw (in_range, safe)
                (record {
                  low = last;
                  high = s.next_safe;
                  run = refl;
                  positive = omega arith;
                  room = ground arith;
                  small = n;
                  clear = c;
                })
        ]
      ]

-- A `pid` for a new process beside `xs`, and the numbers above it that stay free.
pub record Issued (s t : Kernel) (xs : List ℕ) (q : ℕ) : Type 0 where
  pub positive : 0 < q
  pub small : q < max_pid
  pub unused : Unused s xs q
  pub last : t.last_pid ≡ q
  pub safe : t.next_safe ≤ max_pid
  pub clear : Clear s xs (q + 1) t.next_safe
  pub others : t ≡ record s { last_pid = t.last_pid; next_safe = t.next_safe }

-- If some number from 1 to below MAX_PID is no process's `pid`, and the numbers between `last_pid`
-- and `next_safe` are free, then `get_pid` returns: within 2 * MAX_PID rounds of `goto repeat`,
-- each with fuel above the number of processes. Its result is such a number, and the numbers
-- between the new `last_pid` and `next_safe` are free again; nothing else changes.
pub get_pid-Issued :
    (rounds fuel p : ℕ) (s : Kernel) (xs : List ℕ)
    → Ring s.links 0 xs
    → length xs < fuel
    → 2 * max_pid ≤ rounds
    → 0 < p
    → p < max_pid
    → Unused s xs p
    → s.next_safe ≤ max_pid
    → Clear s xs (s.last_pid + 1) s.next_safe
    → (r : ℕ × Kernel) × (get_pid rounds fuel s ≡ ok r) × Issued s r.1 xs r.0
unfolding get_pid
get_pid-Issued rounds fuel p s xs ring f e a b u n c =
    let w = search_pid-Found s xs fuel p ring f a b u rounds e n c in
    (
      (w.low, record s { last_pid = w.low; next_safe = w.high }),
      (rw w.run refl),
      record {
        positive = w.positive;
        small = omega (arith, w.room, w.small);
        unused = Clear-Unused s xs w.low w.high w.room w.clear;
        last = refl;
        safe = w.small;
        clear =
            Clear-shrink s xs w.low w.high (w.low + 1) w.high (omega arith) (omega arith) w.clear;
        others = refl;
      },
    )
