-- ===== src/Proc.antt =====
-- kern/process/proc.h, kern/process/proc.c and kern/schedule/sched.c: the state of the process
-- management. A process is named by a number above 0, and 0 is NULL. In the links of `proc_list`
-- the head is the address 0 and the `list_link` of process `p` the address `p`; in those of
-- `hash_list` the heads are the addresses below 1024 and the `hash_link` of `p` is `1024 + p`.
-- The registers of the processor that the code reads and writes are part of the state.
pub mod Pid
pub mod Hash
pub mod Switch
pub mod Fork
pub mod Init
use os_lab.Base.{
  ℕ, ◌+◌, ◌/◌, ◌%◌, ◌^◌, Bool, true, false, ℤ, List, [], ◌∷◌, Run, ok, panic, if◌then◌else◌,
}
use os_lab.Links.{Links, update}

pub data ProcState : Type 0 where
  uninit sleeping runnable zombie : ProcState

pub record Context : Type 0 where
  pub ra : ℕ
  pub sp : ℕ
  pub s0 : ℕ
  pub s1 : ℕ
  pub s2 : ℕ
  pub s3 : ℕ
  pub s4 : ℕ
  pub s5 : ℕ
  pub s6 : ℕ
  pub s7 : ℕ
  pub s8 : ℕ
  pub s9 : ℕ
  pub s10 : ℕ
  pub s11 : ℕ

-- `struct pushregs` is read by the number of a register, in the order of the structure.
pub record TrapFrame : Type 0 where
  pub gpr : ℕ → ℕ
  pub status : ℕ
  pub epc : ℕ
  pub badvaddr : ℕ
  pub cause : ℕ

pub record Proc : Type 0 where
  pub state : ProcState
  pub pid : ℤ
  pub runs : ℕ
  pub kstack : ℕ
  pub need_resched : Bool
  pub parent : ℕ
  pub mm : ℕ
  pub context : Context
  pub tf : ℕ
  pub pgdir : ℕ
  pub flags : ℕ
  pub name : List ℕ

-- `frames` is the memory of the trap frames by address; `next_safe` and `last_pid` are the static
-- variables of `get_pid`; `freed` and `freed_pages` record the calls of `kfree` and `free_pages`;
-- `sstatus_sie` is the interrupt enable bit, `satp` that register, `cpu` the callee-saved registers.
pub record Kernel : Type 0 where
  pub proc : ℕ → Proc
  pub frames : ℕ → TrapFrame
  pub links : Links
  pub hash : Links
  pub idleproc : ℕ
  pub initproc : ℕ
  pub current : ℕ
  pub nr_process : ℕ
  pub next_safe : ℕ
  pub last_pid : ℕ
  pub boot_pgdir_pa : ℕ
  pub freed : List ℕ
  pub freed_pages : List ℕ
  pub sstatus_sie : Bool
  pub satp : ℕ
  pub cpu : Context

abbrev pub max_process : ℕ
max_process = 4096

abbrev pub max_pid : ℕ
max_pid = 8192

abbrev pub proc_name_len : ℕ
proc_name_len = 15

abbrev pub put_proc : ℕ → Proc → Kernel → Kernel
put_proc i p s = record s { proc = update s.proc i p }

abbrev pub is_runnable : ProcState → Bool
is_runnable runnable = true
is_runnable _ = false

abbrev pub may_wake : ProcState → Bool
may_wake uninit = true
may_wake sleeping = true
may_wake _ = false

-- `wakeup_proc` of kern/schedule/sched.c.
unfoldable pub wakeup_proc : ℕ → Kernel → Run Kernel
wakeup_proc p s =
    if may_wake (s.proc p).state
    then ok (put_proc p (record (s.proc p) { state = runnable }) s)
    else panic
