-- ===== src/Tests/Processes.antt =====
-- kern/process/proc.c and kern/schedule/sched.c at a kernel with the idle process and two others.
use os_lab.Base.{
  Run, ok, inl, ◌<◌, ◌≤◌, panic, spin, fault, ℕ, ◌≡◌, refl, ◌≢◌, ◌||◌, leb, inr, Bool, true, List,
  [], ◌∷◌, map, if◌then◌else◌, ◌==◌, ok, arith, pos, negate,
}
use os_lab.Links.Chain.{Ring}
use os_lab.Proc.Init.{proc_init, setup_idle, start_init, init_buckets}
use os_lab.Proc.{runnable, sleeping, TrapFrame, Proc, Kernel, max_process, wakeup_proc}
use os_lab.Proc.Pid.{get_pid, search_pid, repeat, walk, pid_value}
use os_lab.Proc.Pid.Fresh.{Issued, get_pid-Issued}
use os_lab.Links.{list_add, list_add_between, list_init}
use os_lab.Proc.Hash.{hash_link, hash_proc, find_proc, pid_hashfn, hash32, find_loop}
use os_lab.Proc.Hash.Laws.{find_proc-hash_proc}
use os_lab.Proc.Switch.{schedule}
use os_lab.Proc.Switch.Turns.{turns, schedule-turns}
use os_lab.Proc.Switch.Elect.{Scheduled, elect, schedule-round}
use os_lab.Proc.Fork.{
  Image, zero_context, zeros, do_fork, alloc_proc, set_proc_name, kernel_thread, thread_frame,
  setup_kstack, fork_stacked, copy_mm, copy_thread, enter_proc,
}
use os_lab.Proc.Fork.Enter.{HasProcs}
use os_lab.Proc.Fork.Child.{Child, do_fork-Child, do_fork-fails}

-- Process 9 is idle; 2 is asleep with the pid 2, and 1 runnable with the pid 1.
abbrev process : ℕ → Proc
process p = record {
  state = if p == 2 then sleeping else runnable;
  pid = if p == 9 then pos 0 else pos p;
  runs = 0;
  kstack = 4096;
  need_resched = true;
  parent = 9;
  mm = 0;
  context = zero_context;
  tf = 0;
  pgdir = 0;
  flags = 0;
  name = zeros 16;
}

abbrev frame : TrapFrame
frame = record { gpr = λ i. i; status = 0; epc = 64; badvaddr = 0; cause = 0 }

-- The list of processes is 2, 1; in the hash table every chain is empty.
abbrev running : ℕ → Kernel
running current = record {
  proc = process;
  frames = λ _. frame;
  links = record {
    next = λ p. if p == 0 then 2 else if p == 2 then 1 else 0;
    prev = λ p. if p == 0 then 1 else if p == 1 then 2 else 0;
  };
  hash = record { next = λ p. p; prev = λ p. p };
  idleproc = 9;
  initproc = 1;
  current = current;
  nr_process = 3;
  next_safe = 8192;
  last_pid = 2;
  boot_pgdir_pa = 0;
  freed = [];
  freed_pages = [];
  sstatus_sie = true;
  satp = 0;
  cpu = zero_context;
}

two_procs-Ring : (c : ℕ) → Ring (running c).links 0 (2 ∷ 1 ∷ [])
two_procs-Ring c = record { chain = ground arith; distinct = ground arith }

two_procs-HasProcs : HasProcs (running 9) (2 ∷ 1 ∷ [])
two_procs-HasProcs = record {
  ring = two_procs-Ring 9;
  numbered = ground arith;
  safe = omega arith;
  gap = ground arith;
  counted = refl;
}

get_pid-Issued_example :
    (r : ℕ × Kernel) × (get_pid 16384 3 (running 9) ≡ ok r)
    × Issued (running 9) r.1 (2 ∷ 1 ∷ []) r.0
get_pid-Issued_example =
    get_pid-Issued 16384 3 5 (running 9) (2 ∷ 1 ∷ []) (two_procs-Ring 9) (omega arith) (omega arith)
      (omega arith) (omega arith) (ground arith) (omega arith) (ground arith)

elect_test : elect (running 9) (2 ∷ 1 ∷ []) ≡ 1
unfolding elect
elect_test = refl

schedule-round_example :
    (r : List Bool × Kernel) × (schedule 3 (running 2) ≡ ok r)
    × Scheduled (running 2) r (elect (running 2) (1 ∷ 2 ∷ []))
schedule-round_example =
    schedule-round 3 (running 2) [] (1 ∷ []) (two_procs-Ring 2) (omega arith) (omega arith)

find_proc-hash_proc_example : find_proc 2 (pos 7) (hash_proc 7 (running 9)) ≡ ok 7
find_proc-hash_proc_example =
    find_proc-hash_proc 2 7 7 (running 9) [] refl (omega arith) (omega arith)
      (record { chain = (refl, refl); distinct = (refl, tt) }) refl (omega arith)

abbrev image : Image
image = record { forkret = 1; kernel_thread_entry = 2; init_main = 3; hello = 4; bootstack = 5 }

do_fork-Child_example :
    (q : ℕ) × (t : Kernel) × (do_fork 16384 3 image 7 4096 0 0 frame (running 9) ≡ ok (pos q, t))
    × Child (running 9) t image 7 q 4096 0 frame (2 ∷ 1 ∷ [])
    × Ring t.hash (pid_hashfn (pos q)) (map hash_link (7 ∷ []))
    × (find_proc 3 (pos q) t ≡ ok 7)
do_fork-Child_example =
    do_fork-Child 16384 3 image 7 4096 0 0 frame (running 9) (2 ∷ 1 ∷ []) two_procs-HasProcs
      (omega arith) (omega arith) refl (omega arith) (omega arith) refl (omega arith) (omega arith)
      (λ _. []) (λ h l. (record { chain = (refl, refl); distinct = (refl, tt) }, refl, omega arith))

-- There is no memory for the stack.
do_fork-fails_example :
    (t : Kernel) × (do_fork 16384 3 image 7 0 0 0 frame (running 9)
      ≡ ok (if leb max_process 3 then negate 5 else negate 4, t))
    × (t.freed ≡ (if leb max_process 3 || 7 == 0 then [] else 7 ∷ []))
    × ((u : ℕ) → u ≢ 7 → t.proc u ≡ process u)
    × ((u : ℕ)
        → u ≢ 7
        → (t.links.next u ≡ (running 9).links.next u) × (t.links.prev u ≡ (running 9).links.prev u))
    × ((u : ℕ)
        → u ≢ hash_link 7
        → (t.hash.next u ≡ (running 9).hash.next u) × (t.hash.prev u ≡ (running 9).hash.prev u))
    × (t ≡ record (running 9) { proc = t.proc; links = t.links; hash = t.hash; freed = t.freed })
do_fork-fails_example = do_fork-fails 16384 3 image 7 0 0 0 frame (running 9) (inr (inr refl))

-- From the variables as they are at the start, `proc_init` leaves the idle process 1 as the current
-- one, and the process 2 with `pid` 1 as `initproc`.
abbrev started : Run Kernel → ℕ × ℕ × ℕ × ℕ
started (ok s) = (s.current, s.initproc, pid_value (s.proc 2).pid, s.nr_process)
started panic = (0, 0, 0, 0)
started spin = (0, 0, 0, 1)
started fault = (0, 0, 0, 2)

proc_init_test :
    started (
      proc_init 1 3 image 1 2 4096 0
        (record (running 0) { nr_process = 0; last_pid = 8192; next_safe = 8192 }))
    ≡ (1, 2, 1, 2)
unfolding proc_init setup_idle start_init init_buckets alloc_proc set_proc_name kernel_thread
    thread_frame do_fork setup_kstack fork_stacked copy_mm copy_thread enter_proc get_pid search_pid
    repeat walk hash_proc pid_hashfn hash32 list_add list_add_between list_init wakeup_proc
    find_proc find_loop
proc_init_test = refl

schedule-turns_example :
    (k : ℕ) × (t : Kernel) × (turns 3 (λ j u. u) k (running 9) ≡ ok t)
    × (t.current ≡ 1)
    × (0 < k)
    × (k ≤ 2)
schedule-turns_example =
    schedule-turns 3 (λ j u. u) (running 9) (2 ∷ 1 ∷ []) 1 (two_procs-Ring 9) (ground arith)
      (inl refl) (ground arith) refl
      (λ j u. record {
        same_links = refl;
        same_idle = refl;
        same_current = refl;
        same_states = λ p. refl;
      })
      (omega arith)
