-- ===== src/Proc/Fork/Free.antt =====
-- Fewer processes than numbers: some `pid` is free (kern/process/proc.c, MAX_PID > MAX_PROCESS).
use os_lab.Base.{
  ℕ, zero, suc, ◌≤◌, ◌<◌, ◌≡◌, refl, inl, inr, true, false, ◌==◌, has, length, List, [], ◌∷◌,
  if◌then◌else◌, arith, Bool-cases,
}
use os_lab.Proc.{Kernel}
use os_lab.Proc.Pid.{pid_value}
use os_lab.Proc.Pid.Fresh.{Unused}

without : ℕ → List ℕ → List ℕ
without n [] = []
without n (y ∷ ys) = if y == n then without n ys else y ∷ without n ys

length-without-le : (n : ℕ) (ys : List ℕ) → length (without n ys) ≤ length ys
unfolding without
length-without-le n [] = omega arith
length-without-le n (y ∷ ys) = ground (arith, length-without-le n ys)

length-without : (n : ℕ) (ys : List ℕ) → has n ys ≡ true → length (without n ys) < length ys
unfolding without
length-without n [] h = absurd (ground arith)
length-without n (y ∷ ys) h = ground (arith, length-without n ys, length-without-le n ys)

has-without : (n p : ℕ) (ys : List ℕ) → p < n → has p (without n ys) ≡ has p ys
unfolding without
has-without n p [] h = refl
has-without n p (y ∷ ys) h = ground (arith, has-without n p ys h)

-- Pigeonhole: a list shorter than `n` misses a number from 1 to `n`.
missing : (n : ℕ) (ys : List ℕ) → length ys < n → (p : ℕ) × (0 < p) × (p ≤ n) × (has p ys ≡ false)
missing zero ys h = absurd (omega arith)
missing (suc n) ys h = elim (Bool-cases (has (suc n) ys)) [
  | inr free ↦ (suc n, omega arith, omega arith, free)
  | inl used ↦
      let (p, a, b, c) =
        missing n (without (suc n) ys) (omega (arith, length-without (suc n) ys used)) in
      (p, a, omega arith, ground (arith, has-without (suc n) p ys (omega arith)))
]

abbrev pids : Kernel → List ℕ → List ℕ
pids s [] = []
pids s (x ∷ xs) = pid_value (s.proc x).pid ∷ pids s xs

length-pids : (s : Kernel) (xs : List ℕ) → length (pids s xs) ≡ length xs
length-pids s [] = refl
length-pids s (x ∷ xs) = ground (arith, length-pids s xs)

pids-Unused : (s : Kernel) (p : ℕ) (xs : List ℕ) → has p (pids s xs) ≡ false → Unused s xs p
pids-Unused s p [] h = tt
pids-Unused s p (x ∷ xs) h = (ground arith, pids-Unused s p xs (ground arith))

pub free_pid :
    (s : Kernel) (n : ℕ) (xs : List ℕ) → length xs < n → (p : ℕ) × (0 < p) × (p ≤ n) × Unused s xs p
free_pid s n xs h =
    let (p, a, b, c) = missing n (pids s xs) (omega (arith, length-pids s xs)) in
    (p, a, b, pids-Unused s p xs c)
