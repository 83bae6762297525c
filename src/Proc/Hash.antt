-- ===== src/Proc/Hash.antt =====
-- libs/hash.c, and the hash table of processes in kern/process/proc.c.
pub mod Laws
use os_lab.Base.{
  ℕ, zero, suc, ◌+◌, ◌-◌, ◌*◌, ◌/◌, ◌%◌, ◌^◌, Bool, true, false, ◌&&◌, ltb, ◌==◌, if◌then◌else◌,
  Run, ok, spin, ℤ, pos, negsuc,
}
use os_lab.Links.{list_init, Links, list_add}
use os_lab.Proc.{Proc, Kernel, max_pid}
use os_lab.Proc.Pid.{pid_eq}

-- GOLDEN_RATIO_PRIME_32.
abbrev pub golden_ratio_prime : ℕ
golden_ratio_prime = 0x9e370001

unfoldable pub hash32 : ℕ → ℕ → ℕ
hash32 val bits = val * golden_ratio_prime % 2 ^ 32 / 2 ^ (32 - bits)

-- An `int` that is passed as a `uint32_t`.
abbrev pub to_u32 : ℤ → ℕ
to_u32 (pos k) = k % 2 ^ 32
to_u32 (negsuc n) = 2 ^ 32 - 1 - n % 2 ^ 32

unfoldable pub pid_hashfn : ℤ → ℕ
unfolding hash32
pid_hashfn pid = hash32 (to_u32 pid) 10

abbrev pub hash_list_size : ℕ
hash_list_size = 1024

abbrev pub hash_link : ℕ → ℕ
hash_link p = hash_list_size + p

abbrev pub le2proc_hash : ℕ → ℕ
le2proc_hash le = le - hash_list_size

unfoldable pub hash_proc : ℕ → Kernel → Kernel
unfolding pid_hashfn
hash_proc p s = record s { hash = list_add (pid_hashfn (s.proc p).pid) (hash_link p) s.hash }

-- The walk of `find_proc`; 0 is NULL.
unfoldable pub find_loop : ℕ → ℕ → ℕ → ℕ → Kernel → Run ℕ
find_loop zero list le pid s = spin
find_loop (suc fuel) list le pid s =
    let at = s.hash.next le in
    let on = find_loop fuel list at pid s in
    if at == list
    then ok 0
    else if pid_eq (s.proc (le2proc_hash at)).pid pid
    then ok (le2proc_hash at)
    else on

unfoldable pub find_proc : ℕ → ℤ → Kernel → Run ℕ
unfolding pid_hashfn
find_proc fuel (pos pid) s =
    if ltb 0 pid && ltb pid max_pid
    then (let list = pid_hashfn (pos pid) in find_loop fuel list list pid s)
    else ok 0
find_proc fuel (negsuc _) s = ok 0
