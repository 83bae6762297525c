-- ===== src/Proc/Fork.antt =====
-- kern/process/proc.c: `do_fork`, what it calls, and `kernel_thread`. `block` is the answer of the
-- call of `kmalloc`, `stack` the address of the pages that `alloc_pages` answers; 0 is NULL.
pub mod Enter
pub mod Child
pub mod Free
use Prim.Native.Nat.{bit_and, bit_or}
use os_lab.Base.{
  ℕ, zero, suc, ◌+◌, ◌-◌, ◌%◌, ◌^◌, Bool, true, false, ltb, leb, ◌==◌, if◌then◌else◌, List, [], ◌∷◌,
  ◌++◌, Run, ok, panic, spin, ◌>>=◌, ◌>>◌, ℤ, pos, negsuc, negate, assert,
}
use os_lab.Links.{Links, update, list_init, list_add}
use os_lab.Proc.{
  ProcState, uninit, Context, TrapFrame, Proc, Kernel, put_proc, max_process, proc_name_len,
  wakeup_proc,
}
use os_lab.Proc.Pid.{get_pid}
use os_lab.Proc.Hash.{hash_link, hash_proc}

-- The addresses of the kernel image that the code writes into registers and structures.
pub record Image : Type 0 where
  pub forkret : ℕ
  pub kernel_thread_entry : ℕ
  pub init_main : ℕ
  pub hello : ℕ
  pub bootstack : ℕ

abbrev pub zero_context : Context
zero_context = record {
  ra = 0;
  sp = 0;
  s0 = 0;
  s1 = 0;
  s2 = 0;
  s3 = 0;
  s4 = 0;
  s5 = 0;
  s6 = 0;
  s7 = 0;
  s8 = 0;
  s9 = 0;
  s10 = 0;
  s11 = 0;
}

-- `n` zero bytes.
abbrev pub zeros : ℕ → List ℕ
zeros zero = []
zeros (suc n) = 0 ∷ zeros n

-- The fields that `alloc_proc` writes.
abbrev pub blank_proc : ℕ → Proc
blank_proc boot_pgdir_pa = record {
  state = uninit;
  pid = negsuc 0;
  runs = 0;
  kstack = 0;
  need_resched = false;
  parent = 0;
  mm = 0;
  context = zero_context;
  tf = 0;
  pgdir = boot_pgdir_pa;
  flags = 0;
  name = zeros 16;
}

unfoldable pub alloc_proc : ℕ → Kernel → ℕ × Kernel
alloc_proc block s = if block == 0 then (0, s) else (
  block,
  record s {
    proc = update s.proc block (blank_proc s.boot_pgdir_pa);
    links = list_init block s.links;
    hash = list_init (hash_link block) s.hash;
  },
)

-- The first `n` bytes from an address on.
abbrev pub bytes : ℕ → (ℕ → ℕ) → List ℕ
bytes zero at = []
bytes (suc n) at = at 0 ∷ bytes n (λ i. at (suc i))

-- `name` gives the bytes from the pointer on: PROC_NAME_LEN of them are read.
unfoldable pub set_proc_name : ℕ → (ℕ → ℕ) → Kernel → Kernel
set_proc_name p name s =
    put_proc p (record (s.proc p) { name = bytes proc_name_len name ++ 0 ∷ [] }) s

-- The `int` result 0, or - E_NO_MEM.
unfoldable pub setup_kstack : ℕ → ℕ → Kernel → ℤ × Kernel
setup_kstack p stack s =
    if stack == 0
    then (negate 4, s)
    else (pos 0, put_proc p (record (s.proc p) { kstack = stack }) s)

unfoldable pub put_kstack : ℕ → Kernel → Kernel
put_kstack p s = record s { freed_pages = (s.proc p).kstack ∷ s.freed_pages }

unfoldable pub kfree_proc : ℕ → Kernel → Kernel
kfree_proc p s = record s { freed = p ∷ s.freed }

unfoldable pub copy_mm : Kernel → Run ℤ
copy_mm s = assert ((s.proc s.current).mm == 0) >> ok (pos 0)

-- Registers by their place in `struct pushregs`.
abbrev pub reg_sp : ℕ
reg_sp = 2

abbrev pub reg_s0 : ℕ
reg_s0 = 8

abbrev pub reg_s1 : ℕ
reg_s1 = 9

abbrev pub reg_a0 : ℕ
reg_a0 = 10

-- KSTACKSIZE - sizeof(struct trapframe) is 8192 - 36 * 8.
abbrev pub frame_of : ℕ → ℕ
frame_of kstack = (kstack + 7904) % 2 ^ 64

unfoldable pub copy_thread : Image → ℕ → ℕ → TrapFrame → Kernel → Kernel
copy_thread img p esp tf s =
    let top = frame_of (s.proc p).kstack in
    let regs = update (update tf.gpr reg_a0 0) reg_sp (if esp == 0 then top else esp) in
    let ctx = record ((s.proc p).context) { ra = img.forkret; sp = top } in
    put_proc p (record (s.proc p) { tf = top; context = ctx })
      (record s { frames = update s.frames top (record tf { gpr = regs }) })

abbrev pub int_is_zero : ℤ → Bool
int_is_zero (pos n) = n == 0
int_is_zero (negsuc _) = false

-- From `get_pid` on: the process is entered in the tables and woken up.
unfoldable pub enter_proc : ℕ → ℕ → ℕ → Kernel → Run (ℤ × Kernel)
enter_proc rounds fuel p s = do
  (pid, t) ← get_pid rounds fuel s
  let t1 = put_proc p (record (t.proc p) { pid = pos pid }) t
  let t2 = hash_proc p t1
  let t3 = record t2 { links = list_add 0 p t2.links; nr_process = t2.nr_process + 1 }
  t4 ← wakeup_proc p t3
  ok ((t4.proc p).pid, t4)

-- From `copy_mm` on.
unfoldable pub fork_stacked : ℕ → ℕ → Image → ℕ → ℕ → TrapFrame → Kernel → Run (ℤ × Kernel)
fork_stacked rounds fuel img p esp tf s = do
  ret ← copy_mm s
  if int_is_zero ret
      then enter_proc rounds fuel p (copy_thread img p esp tf s)
      else ok (ret, kfree_proc p (put_kstack p s))

unfoldable pub do_fork : ℕ → ℕ → Image → ℕ → ℕ → ℕ → ℕ → TrapFrame → Kernel → Run (ℤ × Kernel)
do_fork rounds fuel img block stack clone_flags esp tf s =
    if leb max_process s.nr_process
    then ok (negate 5, s)
    else (let (p, t) = alloc_proc block s in
        if p == 0
        then ok (negate 4, t)
        else (let t1 = put_proc p (record (t.proc p) { parent = t.current }) t in
            let (ret, t2) = setup_kstack p stack t1 in
            if int_is_zero ret
            then fork_stacked rounds fuel img p esp tf t2
            else ok (ret, kfree_proc p t2)))

-- The trap frame of a new kernel thread; `sstatus` is what `read_csr` gives.
unfoldable pub thread_frame : Image → ℕ → ℕ → ℕ → TrapFrame
thread_frame img sstatus fn arg = record {
  gpr = update (update (λ _. 0) reg_s0 fn) reg_s1 arg;
  status = bit_and (bit_or sstatus 0x120) 0xfffffffffffffffd;
  epc = img.kernel_thread_entry;
  badvaddr = 0;
  cause = 0;
}

unfoldable pub kernel_thread : ℕ → ℕ → Image → ℕ → ℕ → ℕ → ℕ → ℕ → ℕ → Kernel → Run (ℤ × Kernel)
unfolding thread_frame
kernel_thread rounds fuel img block stack sstatus fn arg clone_flags s =
    do_fork rounds fuel img block stack (bit_or clone_flags 0x100) 0
      (thread_frame img sstatus fn arg) s
