-- ===== src/Dtb/Extract.antt =====
-- What the loop of `extract_memory_info` in kern/driver/dtb.c finds in a device tree, and what
-- `dtb_init` makes of it.
use os_lab.Base.{
  ℕ, zero, suc, ◌+◌, ◌<◌, ◌≤◌, ◌≡◌, ◌≢◌, refl, List, [], ◌∷◌, length, Bool, true, false, Option,
  none, some, leb, ◌==◌, ◌||◌, codes, arith, Bool-cases, inl, inr, Run, ok,
}
use os_lab.CString.Strings.{IsString, strlen-strnlen}
use os_lab.Dtb.{Names, align_down, extract_loop, extract_memory_info, Dtb, dtb_init, dtb_vaddr}
use os_lab.Dtb.Words.{IsBytes, big32, fdt32_to_cpu-load32, fdt64_to_cpu-load64}
use os_lab.Dtb.Tree.{
  Token, begin_node, end_node, prop, nop, HasTokens, same_text, starts_with, first_reg,
  strcmp-same_text, strncmp-starts_with,
}

-- Rounds that the loop makes, with those of `strlen` and `strcmp` on the names.
abbrev pub steps : List Token → ℕ
steps [] = 1
steps (begin_node name ∷ ts) = 1 + length name + steps ts
steps (end_node ∷ ts) = 1 + steps ts
steps (prop name len base size ∷ ts) = 1 + length name + steps ts
steps (nop ∷ ts) = 1 + steps ts

steps_positive : (ts : List Token) → 0 < steps ts
steps_positive [] = omega arith
steps_positive (begin_node name ∷ ts) = omega arith
steps_positive (end_node ∷ ts) = omega arith
steps_positive (prop name len base size ∷ ts) = omega arith
steps_positive (nop ∷ ts) = omega arith

-- The texts that `names` gives the addresses of lie there.
abbrev pub HasNames : (ℕ → ℕ) → Names → Type 0
HasNames m names = IsString m names.memory (codes "memory") × IsString m names.reg (codes "reg")

module _ (names : Names) (strings : ℕ) (m : ℕ → ℕ) (b : IsBytes m) (texts : HasNames m names) where
  pub extract_loop-first_reg :
      (fuel p : ℕ) (inside : Bool) (ts : List Token)
      → HasTokens m strings p ts
      → steps ts ≤ fuel
      → extract_loop fuel names strings p inside m ≡ ok (first_reg inside ts)
  unfolding extract_loop
  extract_loop-first_reg zero p inside ts h f = absurd (omega (arith, steps_positive ts))
  extract_loop-first_reg (suc fuel) p inside [] h f = rw (fdt32_to_cpu-load32 m p b, h) refl
  extract_loop-first_reg (suc fuel) p inside (begin_node name ∷ ts) h f =
      let len = (strlen-strnlen fuel (p + 4) 0 m name h.1 (omega (arith, steps_positive ts))).0 in
      let rest =
        extract_loop-first_reg fuel (align_down (p + 4 + length name + 4))
          (inside || starts_with (codes "memory") name) ts h.2 (omega arith) in
      let found = strncmp-starts_with (p + 4) names.memory name (codes "memory") m h.1 texts.0 in
      rw (fdt32_to_cpu-load32 m p b, h.0, len, found) rest
  extract_loop-first_reg (suc fuel) p inside (end_node ∷ ts) h f =
      rw (fdt32_to_cpu-load32 m p b, h.0)
        (extract_loop-first_reg fuel (p + 4) false ts h.1 (omega arith))
  extract_loop-first_reg (suc fuel) p inside (nop ∷ ts) h f =
      rw (fdt32_to_cpu-load32 m p b, h.0)
        (extract_loop-first_reg fuel (p + 4) inside ts h.1 (omega arith))
  extract_loop-first_reg (suc fuel) p false (prop name len base size ∷ ts) h f =
      rw (fdt32_to_cpu-load32 m p b, fdt32_to_cpu-load32 m (p + 4) b, h.0, h.1)
        (extract_loop-first_reg fuel (align_down (p + 4 + 8 + len + 3)) false ts h.4 (omega arith))
  extract_loop-first_reg (suc fuel) p true (prop name len base size ∷ ts) h f =
      let rest =
        extract_loop-first_reg fuel (align_down (p + 4 + 8 + len + 3)) true ts h.4 (omega arith) in
      let (r, run, same) =
        strcmp-same_text fuel (strings + big32 m (p + 4 + 4)) names.reg name (codes "reg") m h.2
          texts.1 (omega (arith, steps_positive ts)) in
      rw
        (
          fdt32_to_cpu-load32 m p b,
          fdt32_to_cpu-load32 m (p + 4) b,
          fdt32_to_cpu-load32 m (p + 4 + 4) b,
          fdt64_to_cpu-load64 m (p + 4 + 8) b,
          fdt64_to_cpu-load64 m (p + 4 + 16) b,
          h.0,
          h.1,
          run,
          same,
        )
        (elim (Bool-cases (same_text name (codes "reg"))) [
          | inl e ↦ elim (Bool-cases (leb 16 len)) [
            | inl l ↦
                let long : 16 ≤ len = ground arith in rw (e, l, (h.3 long).0, (h.3 long).1) refl
            | inr l ↦ rw (e, l) rest
          ]
          | inr e ↦ rw e rest
        ])

-- The tree lies at `dtb` with its header.
pub record HasTree (m : ℕ → ℕ) (dtb : ℕ) (ts : List Token) : Type 0 where
  pub magic : big32 m dtb ≡ 0xd00dfeed
  pub tokens : HasTokens m (dtb + big32 m (dtb + 12)) (dtb + big32 m (dtb + 8)) ts

abbrev pub set_memory : Dtb → Option (ℕ × ℕ) → Dtb
set_memory s none = s
set_memory s (some (base, size)) = record { memory_base = base; memory_size = size }

saves :
    (s : Dtb) (r : Option (ℕ × ℕ))
    → ◌≡◌ {A = Run Dtb}
        (elim r [
          | none ↦ ok s
          | some (base, size) ↦ ok (record { memory_base = base; memory_size = size })
        ])
        (ok (set_memory s r))
saves s none = refl
saves s (some (base, size)) = refl

-- In a memory of bytes that holds a device tree at the address `boot_dtb`, which is not 0, with the
-- names "memory" and "reg" elsewhere in it, and with fuel for each token and the characters of the
-- names, `dtb_init` returns. It saves the base and the size from the first property "reg" of at least
-- 16 bytes in a node whose name starts with "memory", and where there is none it changes nothing.
pub dtb_init-first_reg :
    (fuel : ℕ) (names : Names) (boot_dtb : ℕ) (m : ℕ → ℕ) (s : Dtb) (ts : List Token)
    → IsBytes m
    → HasNames m names
    → boot_dtb ≢ 0
    → HasTree m (dtb_vaddr boot_dtb) ts
    → steps ts ≤ fuel
    → dtb_init fuel names boot_dtb m s ≡ ok (set_memory s (first_reg false ts))
unfolding dtb_init extract_memory_info
dtb_init-first_reg fuel names boot_dtb m s ts b texts n h f =
    let dtb = dtb_vaddr boot_dtb in
    let there : (boot_dtb == 0) ≡ false = ground arith in
    rw
      (
        there,
        fdt32_to_cpu-load32 m dtb b,
        h.magic,
        fdt32_to_cpu-load32 m (dtb + 12) b,
        fdt32_to_cpu-load32 m (dtb + 8) b,
        extract_loop-first_reg names (dtb + big32 m (dtb + 12)) m b texts fuel
            (dtb + big32 m (dtb + 8)) false ts h.tokens f,
      )
      (saves s (first_reg false ts))
