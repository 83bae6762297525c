-- ===== src/Proc/Hash/Laws.antt =====
-- The hash table of kern/process/proc.c: a process that was added is found by its `pid`.
use os_lab.Base.{
  ℕ, zero, suc, ◌+◌, ◌<◌, ◌≡◌, refl, ap, subst, ◌∙◌, true, false, ◌&&◌, ltb, ◌==◌, has, length,
  List, [], ◌∷◌, map, if◌then◌else◌, ok, ℤ, pos, arith,
}
use os_lab.Links.Chain.{Chain, Ring}
use os_lab.Links.Ring.{list_add-Ring}
use os_lab.Proc.{Proc, Kernel, max_pid}
use os_lab.Proc.Pid.{pid_eq}
use os_lab.Proc.Hash.{
  hash_link, le2proc_hash, hash_list_size, hash32, pid_hashfn, hash_proc, find_loop, find_proc,
}

-- Every index that the table is read at lies in it.
pub pid_hashfn-lt : (pid : ℤ) → pid_hashfn pid < hash_list_size
unfolding pid_hashfn hash32
pid_hashfn-lt pid = omega arith

-- The first process of a bucket with the `pid`, or NULL.
unfoldable pub with_pid : (ℕ → Proc) → ℕ → List ℕ → ℕ
with_pid proc pid [] = 0
with_pid proc pid (x ∷ xs) = if pid_eq (proc x).pid pid then x else with_pid proc pid xs

find_loop-with_pid :
    (fuel list le pid : ℕ) (s : Kernel) (xs : List ℕ)
    → list < hash_list_size
    → Chain s.hash le (map hash_link xs) list
    → length xs < fuel
    → find_loop fuel list le pid s ≡ ok (with_pid s.proc pid xs)
unfolding find_loop with_pid
find_loop-with_pid zero list le pid s xs l c f = absurd (omega arith)
find_loop-with_pid (suc fuel) list le pid s [] l c f = ground arith
find_loop-with_pid (suc fuel) list le pid s (x ∷ xs) l c f =
    let at : (hash_link x == list) ≡ false = ground arith in
    let back : le2proc_hash (hash_link x) ≡ x = omega arith in
    rw (c.0.0, at, back) (ground (arith, find_loop-with_pid fuel list (hash_link x) pid s xs l c.1))

-- With fuel above the number of processes in the bucket `find_proc` returns: the first process of
-- the bucket that has the `pid`, NULL where there is none.
pub find_proc-with_pid :
    (fuel pid : ℕ) (s : Kernel) (xs : List ℕ)
    → 0 < pid
    → pid < max_pid
    → Ring s.hash (pid_hashfn (pos pid)) (map hash_link xs)
    → length xs < fuel
    → find_proc fuel (pos pid) s ≡ ok (with_pid s.proc pid xs)
unfolding find_proc
find_proc-with_pid fuel pid s xs a b r f =
    let test : (ltb 0 pid && ltb pid max_pid) ≡ true = ground arith in
    let h = pid_hashfn (pos pid) in
    rw test (find_loop-with_pid fuel h h pid s xs (pid_hashfn-lt (pos pid)) r.chain f)

hash_proc-Ring :
    (p : ℕ) (s : Kernel) (xs : List ℕ)
    → Ring s.hash (pid_hashfn (s.proc p).pid) (map hash_link xs)
    → has (hash_link p) (pid_hashfn (s.proc p).pid ∷ map hash_link xs) ≡ false
    → Ring (hash_proc p s).hash (pid_hashfn (s.proc p).pid) (map hash_link (p ∷ xs))
unfolding hash_proc
hash_proc-Ring p s xs r new = list_add-Ring s.hash (hash_link p) [] (map hash_link xs) r new

hash_proc-proc : (p : ℕ) (s : Kernel) → (hash_proc p s).proc ≡ s.proc
unfolding hash_proc
hash_proc-proc p s = refl

pub with_pid-head :
    (proc : ℕ → Proc) (pid p : ℕ) (xs : List ℕ)
    → (proc p).pid ≡ pos pid
    → with_pid proc pid (p ∷ xs) ≡ p
unfolding with_pid
with_pid-head proc pid p xs e = ground arith

-- A process with a `pid` from 1 to below MAX_PID that `hash_proc` has added to its bucket, where it
-- did not stand before, is what `find_proc` returns for that `pid`.
pub find_proc-hash_proc :
    (fuel p pid : ℕ) (s : Kernel) (xs : List ℕ)
    → (s.proc p).pid ≡ pos pid
    → 0 < pid
    → pid < max_pid
    → Ring s.hash (pid_hashfn (pos pid)) (map hash_link xs)
    → has (hash_link p) (map hash_link xs) ≡ false
    → length xs + 1 < fuel
    → find_proc fuel (pos pid) (hash_proc p s) ≡ ok p
find_proc-hash_proc fuel p pid s xs e a b r new f =
    let r' : Ring s.hash (pid_hashfn (s.proc p).pid) (map hash_link xs) = rw e r in
    let h = pid_hashfn-lt (s.proc p).pid in
    let after = hash_proc-Ring p s xs r' (ground (arith, h)) in
    let bucket = λ (z : ℤ). Ring (hash_proc p s).hash (pid_hashfn z) (map hash_link (p ∷ xs)) in
    find_proc-with_pid fuel pid (hash_proc p s) (p ∷ xs) a b (subst bucket e after) (omega arith)
    ∙ ap (λ (f : ℕ → Proc). ok (with_pid f pid (p ∷ xs))) (hash_proc-proc p s)
    ∙ ap (λ (q : ℕ). ok q) (with_pid-head s.proc pid p xs e)
