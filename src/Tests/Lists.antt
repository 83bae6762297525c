-- ===== src/Tests/Lists.antt =====
-- libs/list.h at a list of three entries, and the store that the other examples start from.
use os_lab.Base.{◌+◌, ◌-◌, refl, [], ◌∷◌, if◌then◌else◌, ◌==◌, arith}
use os_lab.Links.{Links, list_add_after, list_del}
use os_lab.Links.Chain.{Ring}
use os_lab.Links.Ring.{list_add_after-Ring, list_del-Ring}

abbrev no_links : Links
no_links = record { next = λ _. 0; prev = λ _. 0 }

-- The list with head 100 and the entries 1, 2 and 3.
abbrev three : Links
three = record {
  next = λ p. if p == 100 then 1 else if p == 3 then 100 else p + 1;
  prev = λ p. if p == 100 then 3 else if p == 1 then 100 else p - 1;
}

three-Ring : Ring three 100 (1 ∷ 2 ∷ 3 ∷ [])
three-Ring = record { chain = ground arith; distinct = ground arith }

list_add_after-Ring_example : Ring (list_add_after 1 7 three) 100 (1 ∷ 7 ∷ 2 ∷ 3 ∷ [])
list_add_after-Ring_example = list_add_after-Ring three 7 (1 ∷ []) (2 ∷ 3 ∷ []) three-Ring refl

list_del-Ring_example : Ring (list_del 2 three) 100 (1 ∷ 3 ∷ [])
list_del-Ring_example = list_del-Ring three 2 (1 ∷ []) (3 ∷ []) three-Ring
