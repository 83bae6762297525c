-- ===== src/Proc/Fork/Enter.antt =====
-- The end of `do_fork` of kern/process/proc.c: the process is entered in the list and the hash table.
use os_lab.Base.{
  ℕ, ◌+◌, ◌≤◌, ◌<◌, ◌≡◌, ◌≢◌, ap, subst, ◌∙◌, true, false, has, length, ℤ, List, [], ◌∷◌, ok, pos,
  arith,
}
use os_lab.Links.{list_add}
use os_lab.Links.Chain.{Ring}
use os_lab.Links.Ring.{list_add-Ring}
use os_lab.Proc.{uninit, runnable, Proc, Kernel, put_proc, max_pid, wakeup_proc}
use os_lab.Proc.Pid.{get_pid, pid_value, pid_eq}
use os_lab.Proc.Pid.Fresh.{Unused, Clear, outside, Issued}
use os_lab.Proc.Hash.{hash_proc, hash_link, pid_hashfn}
use os_lab.Proc.Fork.{enter_proc}

-- Each process has a `pid` from 1 to below MAX_PID, and no two have the same.
abbrev pub HasPids : Kernel → List ℕ → Type 0
HasPids s [] = Unit
HasPids s (x ∷ xs) =
    (0 < pid_value (s.proc x).pid)
    × (pid_value (s.proc x).pid < max_pid)
    × Unused s xs (pid_value (s.proc x).pid)
    × HasPids s xs

-- The list, the counter and the static variables of `get_pid` agree with the processes `xs`; the
-- idle process is counted and not in the list.
pub record HasProcs (s : Kernel) (xs : List ℕ) : Type 0 where
  pub ring : Ring s.links 0 xs
  pub numbered : HasPids s xs
  pub safe : s.next_safe ≤ max_pid
  pub gap : Clear s xs (s.last_pid + 1) s.next_safe
  pub counted : s.nr_process ≡ length xs + 1

module _ (s t : Kernel) where
  Unused-frame :
      (p : ℕ) (xs : List ℕ)
      → ((u : ℕ) → has u xs ≡ true → (t.proc u).pid ≡ (s.proc u).pid)
      → Unused s xs p
      → Unused t xs p
  Unused-frame p [] same u = tt
  Unused-frame p (x ∷ xs) same u = (
    ap (λ z. pid_eq z p) (same x (ground arith)) ∙ u.0,
    Unused-frame p xs (λ v i. same v (ground arith)) u.1,
  )

  pub Clear-frame :
      (lo hi : ℕ) (xs : List ℕ)
      → ((u : ℕ) → has u xs ≡ true → (t.proc u).pid ≡ (s.proc u).pid)
      → Clear s xs lo hi
      → Clear t xs lo hi
  Clear-frame lo hi [] same c = tt
  Clear-frame lo hi (x ∷ xs) same c = (
    ap (λ z. outside z lo hi) (same x (ground arith)) ∙ c.0,
    Clear-frame lo hi xs (λ v i. same v (ground arith)) c.1,
  )

  pub HasPids-frame :
      (xs : List ℕ)
      → ((u : ℕ) → has u xs ≡ true → (t.proc u).pid ≡ (s.proc u).pid)
      → HasPids s xs
      → HasPids t xs
  HasPids-frame [] same h = tt
  HasPids-frame (x ∷ xs) same h =
      let e = same x (ground arith) in
      let tail = λ (v : ℕ) (i : has v xs ≡ true). same v (ground arith) in
      rw e
        (h.0, h.1, Unused-frame (pid_value (s.proc x).pid) xs tail h.2, HasPids-frame xs tail h.3)

-- What entering the process `p` in the tables comes to.
pub record Entered (s t : Kernel) (xs : List ℕ) (p q : ℕ) : Type 0 where
  pub valid : HasProcs t (p ∷ xs)
  pub child : t.proc p ≡ record (s.proc p) { pid = pos q; state = runnable }
  pub range : (0 < q) × (q < max_pid)
  pub hashed : t.hash ≡ list_add (pid_hashfn (pos q)) (hash_link p) s.hash
  pub others : (u : ℕ) → u ≢ p → t.proc u ≡ s.proc u
  pub frames : t.frames ≡ s.frames
  pub current : t.current ≡ s.current

-- The final state, given that of `get_pid`.
abbrev pub entered : ℕ → ℕ → Kernel → Kernel
entered p q t =
    let t1 = put_proc p (record (t.proc p) { pid = pos q }) t in
    let t2 = hash_proc p t1 in
    let t3 = record t2 { links = list_add 0 p t2.links; nr_process = t2.nr_process + 1 } in
    put_proc p (record (t3.proc p) { state = runnable }) t3

pub enter_proc-run :
    (rounds fuel p q : ℕ) (s t : Kernel)
    → get_pid rounds fuel s ≡ ok (q, t)
    → (t.proc p).state ≡ uninit
    → enter_proc rounds fuel p s ≡ ok (pos q, entered p q t)
unfolding enter_proc wakeup_proc hash_proc
enter_proc-run rounds fuel p q s t e u = rw e (ground arith)

here :
    (p : ℕ) (z : ℤ) (t : Kernel) → ((put_proc p (record (t.proc p) { pid = z }) t).proc p).pid ≡ z
here p z t = ground arith

pub entered-Entered :
    (s t : Kernel) (xs : List ℕ) (p q : ℕ)
    → HasProcs s xs
    → has p (0 ∷ xs) ≡ false
    → Issued s t xs q
    → Entered s (entered p q t) xs p q
unfolding hash_proc
entered-Entered s t xs p q w new i =
    let links : t.links ≡ s.links = ap (λ (k : Kernel). k.links) i.others in
    let proc : t.proc ≡ s.proc = ap (λ (k : Kernel). k.proc) i.others in
    let nr : t.nr_process ≡ s.nr_process = ap (λ (k : Kernel). k.nr_process) i.others in
    let end = entered p q t in
    let same : (u : ℕ) → has u xs ≡ true → (end.proc u).pid ≡ (s.proc u).pid =
      λ u h. ground (arith, ap (λ (f : ℕ → Proc). (f u).pid) proc) in
    record {
      valid = record {
        ring = rw links (list_add-Ring s.links p [] xs w.ring new);
        numbered = (
          ground (arith, i.positive),
          ground (arith, i.small),
          subst (Unused end xs) (ground arith) (Unused-frame s end q xs same i.unused),
          HasPids-frame s end xs same w.numbered,
        );
        safe = i.safe;
        gap = (
          ground (arith, i.last),
          Clear-frame s end (t.last_pid + 1) t.next_safe xs same (rw i.last i.clear),
        );
        counted = ground (arith, nr, w.counted);
      };
      child = ground (arith, ap (λ (f : ℕ → Proc). f p) proc);
      range = (i.positive, i.small);
      hashed =
          rw (here p (pos q) t)
            (ap (λ (k : Kernel). list_add (pid_hashfn (pos q)) (hash_link p) k.hash) i.others);
      others = λ u ne. ground (arith, ap (λ (f : ℕ → Proc). f u) proc);
      frames = ap (λ (k : Kernel). k.frames) i.others;
      current = ap (λ (k : Kernel). k.current) i.others;
    }
