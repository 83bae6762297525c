-- ===== src/Vmm/Find.antt =====
-- `find_vma` of kern/mm/vmm.c against the sequence of areas.
use os_lab.Base.{
  ℕ, zero, suc, ◌<◌, ◌≡◌, refl, inl, inr, true, false, Option, none, some, List, [], ◌∷◌, has,
  length, arith, ok, Bool-cases,
}
use os_lab.Links.Chain.{Chain}
use os_lab.Vmm.{Space, find_loop, find_vma, remember, cache_hit}
use os_lab.Vmm.Areas.{HasAreas, Areas, owner, owner_unique, owner-has}

-- The walk of the pointer code is the search of the sequence.
find_loop-owner :
    (fuel m le addr : ℕ) (s : Space) (xs : List ℕ)
    → Chain s.links le xs m
    → has m xs ≡ false
    → length xs < fuel
    → find_loop fuel m le addr s ≡ ok (owner s.vma addr xs)
unfolding find_loop owner
find_loop-owner zero m le addr s xs c d f = absurd (omega arith)
find_loop-owner (suc fuel) m le addr s [] c d f = ground arith
find_loop-owner (suc fuel) m le addr s (x ∷ xs) c d f =
    ground (arith, find_loop-owner fuel m x addr s xs c.1)

cache_hit-owner :
    (o : Option ℕ) (addr : ℕ) (s : Space) (xs : List ℕ)
    → Areas s.vma 0 xs
    → ((v : ℕ) → o ≡ some v → has v xs ≡ true)
    → cache_hit o addr s ≡ true
    → o ≡ owner s.vma addr xs
cache_hit-owner none addr s xs a c h = absurd (ground arith)
cache_hit-owner (some v) addr s xs a c h =
    ground (arith, owner_unique s.vma 0 addr v xs a (c v refl) h)

-- With fuel above the number of areas `find_vma` returns the one area that holds the address, or
-- none where no area does, whether or not the cache answers; it stores in the cache what it finds.
pub find_vma-owner :
    (fuel m addr : ℕ) (s : Space) (xs : List ℕ)
    → HasAreas s m xs
    → length xs < fuel
    → find_vma fuel (some m) addr s ≡ ok (owner s.vma addr xs, remember m (owner s.vma addr xs) s)
unfolding find_vma
find_vma-owner fuel m addr s xs w f =
    let cache = (s.mm m).mmap_cache in
    elim (Bool-cases (cache_hit cache addr s)) [
      | inl hit ↦ rw hit (rw (cache_hit-owner cache addr s xs w.areas w.cached hit) refl)
      | inr miss ↦
          rw (miss, find_loop-owner fuel m m addr s xs w.ring.chain w.ring.distinct.0 f) refl
    ]

remember-HasAreas :
    (m addr : ℕ) (s : Space) (xs : List ℕ) (o : Option ℕ)
    → o ≡ owner s.vma addr xs
    → HasAreas s m xs
    → HasAreas (remember m o s) m xs
remember-HasAreas m addr s xs none e w = w
remember-HasAreas m addr s xs (some v) e w = record {
  ring = w.ring;
  areas = w.areas;
  cached = λ u h. ground (arith, owner-has s.vma addr v xs);
  counted = ground (arith, w.counted);
}

-- What `find_vma` leaves behind is again an address space with the same areas.
find_vma-HasAreas :
    (fuel m addr : ℕ) (s : Space) (xs : List ℕ)
    → HasAreas s m xs
    → length xs < fuel
    → (r : Option ℕ × Space) × (find_vma fuel (some m) addr s ≡ ok r) × HasAreas r.1 m xs
find_vma-HasAreas fuel m addr s xs w f =
    let o = owner s.vma addr xs in
    (
      (o, remember m o s),
      find_vma-owner fuel m addr s xs w f,
      remember-HasAreas m addr s xs o refl w,
    )
