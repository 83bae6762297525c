-- ===== src/Proc/Init.antt =====
-- `proc_init` of kern/process/proc.c. `block` and `block'` are the answers of `kmalloc` for the two
-- processes, `stack` the address of the pages of the second. Its check of `alloc_proc`, of which only
-- a message depends, is left out.
use os_lab.Base.{
  ℕ, zero, suc, ◌+◌, true, ◌==◌, ◌&&◌, not, if◌then◌else◌, Run, ok, panic, ◌>>=◌, ◌>>◌, pos, assert,
}
use os_lab.Links.{Links, list_init}
use os_lab.Proc.{Kernel, put_proc, runnable}
use os_lab.Proc.Pid.{pid_eq, pid_gt}
use os_lab.Proc.Hash.{hash_list_size, find_proc}
use os_lab.Proc.Fork.{Image, alloc_proc, set_proc_name, kernel_thread}

-- The loop over `hash_list`: `left` rounds, from bucket `i` on.
unfoldable pub init_buckets : ℕ → ℕ → Links → Links
init_buckets zero i h = h
init_buckets (suc left) i h = init_buckets left (i + 1) (list_init i h)

-- The bytes of "idle" and of "init".
abbrev pub idle_text : ℕ → ℕ
idle_text i =
    if i == 0
    then 105
    else if i == 1
    then 100
    else if i == 2
    then 108
    else if i == 3
    then 101
    else 0

abbrev pub init_text : ℕ → ℕ
init_text i =
    if i == 0
    then 105
    else if i == 1
    then 110
    else if i == 2
    then 105
    else if i == 3
    then 116
    else 0

-- What is written to the idle process `p`, which becomes the current one.
unfoldable pub setup_idle : Image → ℕ → Kernel → Kernel
setup_idle img p s =
    let t =
      put_proc p
        (record (s.proc p) {
          pid = pos 0;
          state = runnable;
          kstack = img.bootstack;
          need_resched = true;
        })
        (record s { idleproc = p }) in
    let u = set_proc_name p idle_text t in record u { nr_process = u.nr_process + 1; current = p }

-- From `kernel_thread` on.
unfoldable pub start_init : ℕ → ℕ → Image → ℕ → ℕ → ℕ → Kernel → Run Kernel
start_init rounds fuel img block stack sstatus s = do
  (pid, t) ← kernel_thread rounds fuel img block stack sstatus img.init_main img.hello 0 s
  assert (pid_gt pid 0)
  p ← find_proc fuel pid t
  let u = set_proc_name p init_text (record t { initproc = p })
  assert (not (u.idleproc == 0) && pid_eq (u.proc u.idleproc).pid 0)
  assert (not (u.initproc == 0) && pid_eq (u.proc u.initproc).pid 1)
  ok u

unfoldable pub proc_init : ℕ → ℕ → Image → ℕ → ℕ → ℕ → ℕ → Kernel → Run Kernel
unfolding setup_idle
proc_init rounds fuel img block block' stack sstatus s =
    let t = record s { links = list_init 0 s.links; hash = init_buckets hash_list_size 0 s.hash } in
    let (p, u) = alloc_proc block t in
    if p == 0 then panic else start_init rounds fuel img block' stack sstatus (setup_idle img p u)
