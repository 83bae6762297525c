-- ===== src/Tests/Slobs.antt =====
-- The theorems about kern/mm/kmalloc.c at concrete stores.
use os_lab.Base.{
  ℕ, true, has, ◌⊎◌, ◌+◌, ◌>>=◌, ◌<◌, ◌==◌, if◌then◌else◌, ◌≡◌, refl, [], ◌∷◌, ok, arith,
}
use os_lab.Slob.{find_place, join_next, join_prev, slob_units}
use os_lab.Slob.{slob_alloc, search_units, take_block, take_units}
use os_lab.Slob.Take.{Takes}
use os_lab.Slob.Alloc.{slob_alloc-Takes}
use os_lab.Slob.Circle.{Circle}
use os_lab.Slob.Release.{Releases, slob_free-Releases}
use os_lab.Slob.{Slob, big_alloc, ksize, slob_free}
use os_lab.Slob.Order.{HasOrder}
use os_lab.Slob.Big.{big_alloc-short}

-- The arena at 1 with one block of 254 units at 256, and pages at 512 to come.
abbrev store : Slob
store = record {
  units = λ p. if p == 1 then 1 else 254;
  next = λ p. if p == 1 then 256 else 1;
  slobfree = 1;
  bigblocks = [];
  pages = 512 ∷ [];
  freed = [];
}

big_alloc-short_example :
    (g : Slob) × (big_alloc 20 8193 300 store ≡ ok (512, g)) × (ksize 512 g < 8193)
unfolding HasOrder
big_alloc-short_example =
    big_alloc-short 20 8193 1 300 512 [] store (omega arith) (omega arith)
      (omega arith, omega arith) (omega arith) (omega arith) refl refl

-- The arena is the block at 10; 4 units at 20 and 2 units at 40 are free, and slobfree is the last.
abbrev circle : Slob
circle = record {
  units = λ p. if p == 10 then 1 else if p == 20 then 4 else 2;
  next = λ p. if p == 10 then 20 else if p == 20 then 40 else 10;
  slobfree = 40;
  bigblocks = [];
  pages = [];
  freed = [];
}

circle-Circle : Circle circle (10 ∷ 20 ∷ 40 ∷ [])
circle-Circle = record { linked = omega arith; rising = omega arith; member = refl }

-- The 48 bytes from unit 24 on join the block in front.
slob_free_test : (slob_free 3 24 48 circle >>= λ t. ok (t.units 20)) ≡ ok 7
unfolding slob_free find_place join_next join_prev slob_units
slob_free_test = refl

slob_free-Releases_example :
    (t : Slob) × (slob_free 3 24 48 circle ≡ ok t) × Releases circle t (10 ∷ 20 ∷ 40 ∷ []) 24 3
unfolding slob_units
slob_free-Releases_example =
    slob_free-Releases 3 24 48 circle (10 ∷ 20 ∷ 40 ∷ []) circle-Circle (omega arith) (omega arith)
      (λ q i. ground (arith, i)) (omega arith)

-- The search begins behind unit 40: the arena has no room, and the block at 20 has.
slob_alloc_test : (slob_alloc 3 40 0 circle >>= λ r. ok (r.0 + r.1.next 10)) ≡ ok 43
unfolding slob_alloc search_units take_block take_units slob_units
slob_alloc_test = refl

slob_alloc-Takes_example :
    ((x : ℕ) × (t : Slob) × (slob_alloc 3 40 0 circle ≡ ok (x, t))
      × Takes circle t (10 ∷ 20 ∷ 40 ∷ []) x 3)
    ⊎ (((m : ℕ) → has m (10 ∷ 20 ∷ 40 ∷ []) ≡ true → circle.units m < 3)
        × (circle.pages ≡ [] → slob_alloc 3 40 0 circle ≡ ok (0, circle)))
unfolding slob_units
slob_alloc-Takes_example =
    slob_alloc-Takes 3 40 circle (10 ∷ 20 ∷ 40 ∷ []) circle-Circle (omega arith) (omega arith)
      (omega arith) (omega arith)
