-- ===== src/Tests/Spaces.antt =====
-- kern/mm/vmm.c at an address space with two areas.
use os_lab.Base.{
  ◌≡◌, ◌⊎◌, refl, true, false, none, some, [], ◌∷◌, if◌then◌else◌, ◌==◌, ok, panic, arith,
}
use os_lab.Links.Chain.{Ring}
use os_lab.Vmm.{Space, find_vma, remember, insert_vma_struct, mm_destroy}
use os_lab.Vmm.Areas.{HasAreas, owner, clear_of_all}
use os_lab.Vmm.Find.{find_vma-owner}
use os_lab.Vmm.Insert.{insert_vma_struct-lem, Inserted}
use os_lab.Vmm.Destroy.{mm_destroy-frees}

-- The space 100 has the areas 1, from 5 to 7, and 2, from 20 to 30; 3, from 10 to 12, is free.
abbrev two_areas : Space
two_areas = record {
  mm = λ _. record { mmap_cache = some 2; pgdir = none; map_count = 2; sm_priv = none };
  vma = λ v. record {
    vm_mm = some 100;
    vm_start = if v == 1 then 5 else if v == 2 then 20 else 10;
    vm_end = if v == 1 then 7 else if v == 2 then 30 else 12;
    vm_flags = 0;
  };
  links = record {
    next = λ p. if p == 100 then 1 else if p == 1 then 2 else 100;
    prev = λ p. if p == 100 then 2 else if p == 2 then 1 else 100;
  };
}

two_areas-HasAreas : HasAreas two_areas 100 (1 ∷ 2 ∷ [])
two_areas-HasAreas = record {
  ring = record { chain = ground arith; distinct = ground arith };
  areas = ground arith;
  cached = λ v e. ground arith;
  counted = refl;
}

find_vma-owner_example :
    find_vma 3 (some 100) 6 two_areas
    ≡ ok (
      owner two_areas.vma 6 (1 ∷ 2 ∷ []),
      remember 100 (owner two_areas.vma 6 (1 ∷ 2 ∷ [])) two_areas,
    )
find_vma-owner_example =
    find_vma-owner 3 100 6 two_areas (1 ∷ 2 ∷ []) two_areas-HasAreas (omega arith)

-- The address 6 lies in area 1, the end of an area outside of it.
find_test : owner two_areas.vma 6 (1 ∷ 2 ∷ []) ≡ some 1
unfolding owner
find_test = refl

find_end_test : owner two_areas.vma 7 (1 ∷ 2 ∷ []) ≡ none
unfolding owner
find_end_test = refl

insert_vma_struct-lem_example :
    ((clear_of_all two_areas.vma 3 (1 ∷ 2 ∷ []) ≡ true)
      × ((t : Space) × (insert_vma_struct 3 100 3 two_areas ≡ ok t)
          × Inserted two_areas t 100 3 (1 ∷ 2 ∷ [])))
    ⊎ ((clear_of_all two_areas.vma 3 (1 ∷ 2 ∷ []) ≡ false)
        × (insert_vma_struct 3 100 3 two_areas ≡ panic))
insert_vma_struct-lem_example =
    insert_vma_struct-lem 3 100 3 two_areas (1 ∷ 2 ∷ []) two_areas-HasAreas refl (omega arith)
      (omega arith)

insert_test : clear_of_all two_areas.vma 3 (1 ∷ 2 ∷ []) ≡ true
unfolding clear_of_all
insert_test = refl

mm_destroy-frees_example :
    (t : Space) × (mm_destroy 3 100 two_areas ≡ ok (1 ∷ 2 ∷ [], 100, t)) × Ring t.links 100 []
mm_destroy-frees_example =
    mm_destroy-frees 3 100 two_areas (1 ∷ 2 ∷ []) two_areas-HasAreas (omega arith)
