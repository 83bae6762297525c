-- ===== src/Proc/Switch.antt =====
-- kern/sync/sync.h, `proc_run` of kern/process/proc.c and `schedule` of kern/schedule/sched.c. The
-- functions that switch to another process end in the model where `switch_to` hands the processor
-- over: their result holds the values of `intr_flag` that the old process has on its stack, the
-- innermost first, and `resume` is what it does with them when it runs again.
pub mod Elect
pub mod Turns
use os_lab.Base.{
  ℕ, zero, suc, ◌+◌, ◌/◌, ◌%◌, ◌^◌, Bool, true, false, ◌&&◌, ◌||◌, not, ltb, ◌==◌, if◌then◌else◌,
  List, [], ◌∷◌, ◌++◌, Run, ok, spin, ◌>>=◌,
}
use os_lab.Links.{Links, update}
use os_lab.Proc.{Proc, Kernel, put_proc, is_runnable}

-- `local_intr_save` and `local_intr_restore`.
unfoldable pub intr_save : Kernel → Bool × Kernel
intr_save s = if s.sstatus_sie then (true, record s { sstatus_sie = false }) else (false, s)

unfoldable pub intr_restore : Bool → Kernel → Kernel
intr_restore flag s = if flag then record s { sstatus_sie = true } else s

-- `lsatp` of libs/riscv.h: its argument is an `unsigned int`, so SATP32_MODE and the shifted
-- address have no bit in common.
unfoldable pub lsatp : ℕ → ℕ
lsatp pgdir = 2 ^ 31 + pgdir % 2 ^ 32 / 2 ^ 12

-- `switch_to`: the callee-saved registers of the processor are saved and loaded.
unfoldable pub switch_to : ℕ → ℕ → Kernel → Kernel
switch_to from to s =
    let t = put_proc from (record (s.proc from) { context = s.cpu }) s in
    record t { cpu = (t.proc to).context }

unfoldable pub proc_run : ℕ → Kernel → List Bool × Kernel
unfolding intr_save lsatp switch_to
proc_run p s =
    if p == s.current
    then ([], s)
    else (let (flag, t) = intr_save s in
        (
          flag ∷ [],
          switch_to s.current p (record t { current = p; satp = lsatp (t.proc p).pgdir }),
        ))

unfoldable pub resume : List Bool → Kernel → Kernel
unfolding intr_restore
resume [] s = s
resume (flag ∷ flags) s = resume flags (intr_restore flag s)

-- The loop of `schedule`: the last process that it looked at, 0 if none.
unfoldable pub choose : ℕ → ℕ → ℕ → ℕ → Kernel → Run ℕ
choose zero last le next s = spin
choose (suc fuel) last le next s =
    let at = s.links.next le in
    let skipped = choose fuel last at next s in
    let passed = choose fuel last at at s in
    if at == 0
    then (if at == last then ok next else skipped)
    else if is_runnable (s.proc at).state
    then ok at
    else if at == last
    then ok at
    else passed

abbrev pub or_idle : ℕ → Kernel → ℕ
or_idle next s = if next == 0 || not (is_runnable (s.proc next).state) then s.idleproc else next

-- What `schedule` does once it has chosen.
unfoldable pub dispatch : Bool → ℕ → Kernel → List Bool × Kernel
unfolding proc_run intr_restore
dispatch flag next s =
    let t = put_proc next (record (s.proc next) { runs = ((s.proc next).runs + 1) % 2 ^ 32 }) s in
    if next == t.current
    then ([], intr_restore flag t)
    else (let (flags, u) = proc_run next t in (flags ++ flag ∷ [], u))

unfoldable pub schedule : ℕ → Kernel → Run (List Bool × Kernel)
schedule fuel s =
    let (flag, t) = intr_save s in
    let u = put_proc t.current (record (t.proc t.current) { need_resched = false }) t in
    let last = if u.current == u.idleproc then 0 else u.current in
    choose fuel last last 0 u >>= λ next. ok (dispatch flag (or_idle next u) u)
