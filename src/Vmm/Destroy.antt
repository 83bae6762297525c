-- ===== src/Vmm/Destroy.antt =====
-- `mm_destroy` of kern/mm/vmm.c: every area of the list is freed once.
use os_lab.Base.{ℕ, zero, suc, ◌<◌, ◌≡◌, refl, ◌∙◌, List, [], ◌∷◌, length, arith, ok, ◌>>=◌}
use os_lab.Links.{Links, list_del}
use os_lab.Links.Chain.{Ring}
use os_lab.Links.Ring.{list_del-Ring}
use os_lab.Vmm.{Space, destroy_loop, mm_destroy}
use os_lab.Vmm.Areas.{HasAreas}

destroy_loop-step :
    (fuel m x : ℕ) (h : Links) (xs : List ℕ)
    → Ring h m (x ∷ xs)
    → destroy_loop (suc fuel) m h ≡ (destroy_loop fuel m (list_del x h) >>= λ r. ok (x ∷ r.0, r.1))
unfolding destroy_loop
destroy_loop-step fuel m x h xs r = ground (arith, r.chain.0.0, r.distinct.0)

destroy_loop-Ring :
    (fuel m : ℕ) (h : Links) (xs : List ℕ)
    → Ring h m xs
    → length xs < fuel
    → (g : Links) × (destroy_loop fuel m h ≡ ok (xs, g)) × Ring g m []
unfolding destroy_loop
destroy_loop-Ring zero m h xs r f = absurd (omega arith)
destroy_loop-Ring (suc fuel) m h [] r f = (h, ground (arith, r.chain.0), r)
destroy_loop-Ring (suc fuel) m h (x ∷ xs) r f =
    let (g, run, rest) =
      destroy_loop-Ring fuel m (list_del x h) xs (list_del-Ring h x [] xs r) (omega arith) in
    (g, destroy_loop-step fuel m x h xs r ∙ (rw run refl), rest)

-- With fuel above the number of areas `mm_destroy` returns: it has freed the areas of the list, each
-- once and in order, then the `mm_struct`, and the list is empty.
pub mm_destroy-frees :
    (fuel m : ℕ) (s : Space) (xs : List ℕ)
    → HasAreas s m xs
    → length xs < fuel
    → (t : Space) × (mm_destroy fuel m s ≡ ok (xs, m, t)) × Ring t.links m []
unfolding mm_destroy
mm_destroy-frees fuel m s xs w f =
    let (g, run, r) = destroy_loop-Ring fuel m s.links xs w.ring f in
    (record s { links = g }, (rw run refl), r)
