-- ===== src/Vmm.antt =====
-- kern/mm/vmm.c and vmm.h: the virtual memory areas of an address space. A `vma_struct` is named
-- by the address of its `list_link`, an `mm_struct` by that of its `mmap_list`, its first field.
-- `fuel` bounds the rounds of a walk round the list of areas.
pub mod Areas
pub mod Find
pub mod Insert
pub mod Destroy
use os_lab.Base.{
  ℕ, zero, suc, ◌+◌, Bool, true, false, Option, none, some, List, [], ◌∷◌, Run, ok, panic, spin,
  ◌>>=◌, ◌>>◌, ltb, leb, ◌==◌, ◌&&◌, if◌then◌else◌, assert,
}
use os_lab.Links.{Links, update, list_init, list_add_after, list_del}

pub record Vma : Type 0 where
  pub vm_mm : Option ℕ
  pub vm_start : ℕ
  pub vm_end : ℕ
  pub vm_flags : ℕ

pub record Mm : Type 0 where
  pub mmap_cache : Option ℕ
  pub pgdir : Option ℕ
  pub map_count : ℕ
  pub sm_priv : Option ℕ

-- The structures at every address, and the links inside them.
pub record Space : Type 0 where
  pub mm : ℕ → Mm
  pub vma : ℕ → Vma
  pub links : Links

-- `mm_create` with the answer of its call of `kmalloc`.
unfoldable pub mm_create : Option ℕ → Space → Option ℕ × Space
unfolding list_init
mm_create none s = (none, s)
mm_create (some m) s = (
  some m,
  record s {
    links = list_init m s.links;
    mm = update s.mm m (record { mmap_cache = none; pgdir = none; map_count = 0; sm_priv = none });
  },
)

-- `vma_create` with the answer of its call of `kmalloc`; `vm_mm` is not written.
unfoldable pub vma_create : Option ℕ → ℕ → ℕ → ℕ → Space → Option ℕ × Space
vma_create none start end flags s = (none, s)
vma_create (some v) start end flags s = (
  some v,
  record s {
    vma = update s.vma v (record (s.vma v) { vm_start = start; vm_end = end; vm_flags = flags });
  },
)

-- `vma->vm_start <= addr && addr < vma->vm_end`.
abbrev pub in_vma : (ℕ → Vma) → ℕ → ℕ → Bool
in_vma vs addr v = leb (vs v).vm_start addr && ltb addr (vs v).vm_end

-- The loop of `find_vma`: the area found, if any.
unfoldable pub find_loop : ℕ → ℕ → ℕ → ℕ → Space → Run (Option ℕ)
find_loop zero list le addr s = spin
find_loop (suc fuel) list le addr s =
    let at = s.links.next le in
    let on = find_loop fuel list at addr s in
    if at == list then ok none else if in_vma s.vma addr at then ok (some at) else on

abbrev pub cache_hit : Option ℕ → ℕ → Space → Bool
cache_hit none addr s = false
cache_hit (some v) addr s = in_vma s.vma addr v

abbrev pub remember : ℕ → Option ℕ → Space → Space
remember m none s = s
remember m (some v) s = record s { mm = update s.mm m (record (s.mm m) { mmap_cache = some v }) }

unfoldable pub find_vma : ℕ → Option ℕ → ℕ → Space → Run (Option ℕ × Space)
find_vma fuel none addr s = ok (none, s)
find_vma fuel (some m) addr s = do
  vma ←
      if cache_hit (s.mm m).mmap_cache addr s
      then ok (s.mm m).mmap_cache
      else find_loop fuel m m addr s
  ok (vma, remember m vma s)

unfoldable pub check_vma_overlap : Vma → Vma → Run (Unit {0})
check_vma_overlap prev next = do
  assert (ltb prev.vm_start prev.vm_end)
  assert (leb prev.vm_end next.vm_start)
  assert (ltb next.vm_start next.vm_end)

-- The loop of `insert_vma_struct`: the entry `le_prev` behind which the area belongs.
unfoldable pub place_loop : ℕ → ℕ → ℕ → ℕ → Space → Run ℕ
place_loop zero list le v s = spin
place_loop (suc fuel) list le v s =
    let at = s.links.next le in
    let on = place_loop fuel list at v s in
    if at == list then ok le else if ltb (s.vma v).vm_start (s.vma at).vm_start then ok le else on

unfoldable pub insert_vma_struct : ℕ → ℕ → ℕ → Space → Run Space
insert_vma_struct fuel m v s = do
  assert (ltb (s.vma v).vm_start (s.vma v).vm_end)
  le_prev ← place_loop fuel m m v s
  let le_next = s.links.next le_prev
  if le_prev == m then ok tt else check_vma_overlap (s.vma le_prev) (s.vma v)
  if le_next == m then ok tt else check_vma_overlap (s.vma v) (s.vma le_next)
  ok (record s {
    vma = update s.vma v (record (s.vma v) { vm_mm = some m });
    links = list_add_after le_prev v s.links;
    mm = update s.mm m (record (s.mm m) { map_count = (s.mm m).map_count + 1 });
  })

-- The loop of `mm_destroy`, with the areas that it frees in the order of its calls of `kfree`.
unfoldable pub destroy_loop : ℕ → ℕ → Links → Run (List ℕ × Links)
destroy_loop zero list h = spin
destroy_loop (suc fuel) list h =
    let at = h.next list in
    let on = destroy_loop fuel list (list_del at h) >>= λ r. ok (at ∷ r.0, r.1) in
    if at == list then ok ([], h) else on

-- The freed structures, the `mm_struct` last.
unfoldable pub mm_destroy : ℕ → ℕ → Space → Run (List ℕ × ℕ × Space)
unfolding destroy_loop
mm_destroy fuel m s = do
  (freed, h) ← destroy_loop fuel m s.links
  ok (freed, m, record s { links = h })
