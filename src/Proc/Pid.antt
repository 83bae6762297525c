-- ===== src/Proc/Pid.antt =====
-- `get_pid` of kern/process/proc.c. The walk of the list takes fuel, and so does `goto repeat`.
pub mod Fresh
use os_lab.Base.{
  ℕ, zero, suc, ◌+◌, Bool, true, false, ◌&&◌, ltb, leb, ◌==◌, if◌then◌else◌, Run, ok, spin, ◌>>=◌,
  ℤ, pos, negsuc,
}
use os_lab.Proc.{Proc, Kernel, max_pid}

-- The comparisons of a `pid` with the variables of `get_pid`, which are never negative.
abbrev pub pid_eq : ℤ → ℕ → Bool
pid_eq (pos k) n = k == n
pid_eq (negsuc _) n = false

abbrev pub pid_gt : ℤ → ℕ → Bool
pid_gt (pos k) n = ltb n k
pid_gt (negsuc _) n = false

abbrev pub pid_lt : ℤ → ℕ → Bool
pid_lt (pos k) n = ltb k n
pid_lt (negsuc _) n = true

-- The value of a `pid` that is not negative.
abbrev pub pid_value : ℤ → ℕ
pid_value (pos k) = k
pid_value (negsuc _) = 0

-- One walk round `proc_list`; `again last` is `goto repeat`. The results are `last_pid` and
-- `next_safe`.
unfoldable pub walk : (ℕ → Run (ℕ × ℕ)) → ℕ → ℕ → ℕ → ℕ → Kernel → Run (ℕ × ℕ)
walk again zero le last next s = spin
walk again (suc fuel) le last next s =
    let at = s.links.next le in
    let pid = (s.proc at).pid in
    let bumped = walk again fuel at (last + 1) next s in
    let lowered = walk again fuel at last (pid_value pid) s in
    let on = walk again fuel at last next s in
    if at == 0
    then ok (last, next)
    else if pid_eq pid last
    then (if leb next (last + 1)
        then again (if leb max_pid (last + 1) then 1 else last + 1)
        else bumped)
    else if pid_gt pid last && pid_lt pid next
    then lowered
    else on

unfoldable pub repeat : ℕ → ℕ → ℕ → Kernel → Run (ℕ × ℕ)
repeat zero fuel last s = spin
repeat (suc rounds) fuel last s = walk (λ l. repeat rounds fuel l s) fuel 0 last max_pid s

unfoldable pub search_pid : ℕ → ℕ → Kernel → Run (ℕ × ℕ)
search_pid rounds fuel s =
    let last = s.last_pid + 1 in
    if leb max_pid last
    then repeat rounds fuel 1 s
    else if leb s.next_safe last
    then repeat rounds fuel last s
    else ok (last, s.next_safe)

unfoldable pub get_pid : ℕ → ℕ → Kernel → Run (ℕ × Kernel)
unfolding search_pid
get_pid rounds fuel s = do
  (last, next) ← search_pid rounds fuel s
  ok (last, record s { last_pid = last; next_safe = next })
