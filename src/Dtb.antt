-- ===== src/Dtb.antt =====
-- kern/driver/dtb.c: the device tree in a memory `m` of bytes, of which a load takes the low byte
-- first, as the processor does. `names` gives the addresses of the texts "memory" and "reg".
-- Messages are left out.
pub mod Words
pub mod Tree
pub mod Extract
use os_lab.Base.{
  ℕ, zero, suc, ◌+◌, ◌-◌, ◌*◌, ◌/◌, ◌%◌, ◌^◌, Bool, true, false, Option, none, some, Run, ok, panic,
  spin, ltb, leb, ◌==◌, ◌&&◌, ◌||◌, not, if◌then◌else◌, ◌>>=◌, ◌>>◌, ℤ, pos, negsuc,
}
use os_lab.CString.{strlen, strcmp, strncmp}

-- Loads of a `uint32_t` and of a `uint64_t`.
unfoldable pub load32 : (ℕ → ℕ) → ℕ → ℕ
load32 m p = m p + m (p + 1) * 2 ^ 8 + m (p + 2) * 2 ^ 16 + m (p + 3) * 2 ^ 24

unfoldable pub load64 : (ℕ → ℕ) → ℕ → ℕ
load64 m p = load32 m p + load32 m (p + 4) * 2 ^ 32

-- The four bytes have no bit in common, so that `|` is `+`.
unfoldable pub fdt32_to_cpu : ℕ → ℕ
fdt32_to_cpu x =
    x % 2 ^ 8 * 2 ^ 24
    + x / 2 ^ 8 % 2 ^ 8 * 2 ^ 16
    + x / 2 ^ 16 % 2 ^ 8 * 2 ^ 8
    + x / 2 ^ 24 % 2 ^ 8

unfoldable pub fdt64_to_cpu : ℕ → ℕ
fdt64_to_cpu x = fdt32_to_cpu (x % 2 ^ 32) * 2 ^ 32 + fdt32_to_cpu (x / 2 ^ 32 % 2 ^ 32)

pub record Names : Type 0 where
  pub memory : ℕ
  pub reg : ℕ

abbrev pub is_zero : ℤ → Bool
is_zero (pos n) = n == 0
is_zero (negsuc _) = false

-- `& ~3` of an address.
abbrev pub align_down : ℕ → ℕ
align_down p = p / 4 * 4

-- The loop of `extract_memory_info`; `none` for the result -1. `strings` is `strings_base`.
unfoldable pub extract_loop : ℕ → Names → ℕ → ℕ → Bool → (ℕ → ℕ) → Run (Option (ℕ × ℕ))
extract_loop zero names strings ptr in_memory_node m = spin
extract_loop (suc fuel) names strings ptr in_memory_node m =
    let token = fdt32_to_cpu (load32 m ptr) in
    let p = ptr + 4 in
    let begin = strlen fuel p m >>= λ name_len.
    extract_loop fuel names strings (align_down (p + name_len + 4))
      (in_memory_node || is_zero (strncmp p names.memory 6 m)) m in
    let end = extract_loop fuel names strings p false m in
    let prop_len = fdt32_to_cpu (load32 m p) in
    let prop_nameoff = fdt32_to_cpu (load32 m (p + 4)) in
    let skip =
      extract_loop fuel names strings (align_down (p + 8 + prop_len + 3)) in_memory_node m in
    let here : ℕ × ℕ = (fdt64_to_cpu (load64 m (p + 8)), fdt64_to_cpu (load64 m (p + 16))) in
    let prop = strcmp fuel (strings + prop_nameoff) names.reg m >>= λ r.
    if is_zero r && leb 16 prop_len then ok (some here) else skip in
    let nop = extract_loop fuel names strings p in_memory_node m in
    if token == 1
    then begin
    else if token == 2
    then end
    else if token == 3
    then (if in_memory_node then prop else skip)
    else if token == 4
    then nop
    else ok none

unfoldable pub extract_memory_info : ℕ → Names → ℕ → (ℕ → ℕ) → Run (Option (ℕ × ℕ))
unfolding extract_loop
extract_memory_info fuel names dtb m =
    extract_loop fuel names (dtb + fdt32_to_cpu (load32 m (dtb + 12)))
      (dtb + fdt32_to_cpu (load32 m (dtb + 8))) false m

-- `memory_base` and `memory_size`.
pub record Dtb : Type 0 where
  pub memory_base : ℕ
  pub memory_size : ℕ

abbrev pub physical_memory_offset : ℕ
physical_memory_offset = 0xffffffff40000000

abbrev pub dtb_vaddr : ℕ → ℕ
dtb_vaddr boot_dtb = (boot_dtb + physical_memory_offset) % 2 ^ 64

unfoldable pub dtb_init : ℕ → Names → ℕ → (ℕ → ℕ) → Dtb → Run Dtb
unfolding extract_memory_info
dtb_init fuel names boot_dtb m s =
    let dtb = dtb_vaddr boot_dtb in
    if boot_dtb == 0
    then ok s
    else if not (fdt32_to_cpu (load32 m dtb) == 0xd00dfeed)
    then ok s
    else (extract_memory_info fuel names dtb m >>= λ r. elim r [
      | none ↦ ok s
      | some (base, size) ↦ ok (record { memory_base = base; memory_size = size })
    ])

unfoldable pub get_memory_base : Dtb → ℕ
get_memory_base s = s.memory_base

unfoldable pub get_memory_size : Dtb → ℕ
get_memory_size s = s.memory_size
