-- ===== src/Vmm/Insert.antt =====
-- `insert_vma_struct` of kern/mm/vmm.c against the sequence of areas.
use os_lab.Base.{
  ℕ, zero, suc, ◌+◌, ◌≤◌, ◌<◌, ◌≡◌, refl, ap, sym, subst, ◌∙◌, ◌⊎◌, inl, inr, Bool, true, false,
  ◌&&◌, some, List, [], ◌∷◌, ◌++◌, leb, ltb, ◌==◌, has, has-append, length, length-append, arith,
  if◌then◌else◌, ok, panic, ◌>>=◌, Bool-cases, assert,
}
use os_lab.Links.{update, list_add_after}
use os_lab.Links.Chain.{Chain, first, last, has-last}
use os_lab.Links.Ring.{Chain-cut, list_add_after-Ring}
use os_lab.Vmm.{Vma, Space, place_loop, insert_vma_struct, check_vma_overlap}
use os_lab.Vmm.Areas.{HasAreas, Areas, clear_of_all}

module _ (vs : ℕ → Vma) (v : ℕ) where
  -- The areas in front of the place of `v` start at or below it, the one behind above it.
  abbrev Below : List ℕ → Type 0
  Below [] = Unit
  Below (w ∷ ws) = ((vs w).vm_start ≤ (vs v).vm_start) × Below ws

  abbrev Above : List ℕ → Type 0
  Above [] = Unit
  Above (z ∷ _) = (vs v).vm_start < (vs z).vm_start

  record Place (xs : List ℕ) : Type 0 where
    front : List ℕ
    back : List ℕ
    split : xs ≡ front ++ back
    below : Below front
    above : Above back

  place : (xs : List ℕ) → Place xs
  place [] = record { front = []; back = []; split = refl; below = tt; above = tt }
  place (x ∷ xs) = elim (Bool-cases (ltb (vs v).vm_start (vs x).vm_start)) [
    | inl lt ↦ record { front = []; back = x ∷ xs; split = refl; below = tt; above = ground arith }
    | inr ge ↦
        let p = place xs in
        record {
          front = x ∷ p.front;
          back = p.back;
          split = ap (λ l. x ∷ l) p.split;
          below = (ground arith, p.below);
          above = p.above;
        }
  ]

  -- The two comparisons that `insert_vma_struct` makes.
  abbrev front_clear : List ℕ → Bool
  front_clear [] = true
  front_clear (w ∷ ws) = leb (vs (last w ws)).vm_end (vs v).vm_start

  abbrev back_clear : List ℕ → Bool
  back_clear [] = true
  back_clear (z ∷ _) = leb (vs v).vm_end (vs z).vm_start

  -- The areas behind the place: if the first is clear of `v`, so are the others.
  back_clear-all :
      (lo : ℕ) (zs : List ℕ)
      → Areas vs lo zs
      → (vs v).vm_start < (vs v).vm_end
      → (vs v).vm_start < lo
      → (vs v).vm_end ≤ lo
      → clear_of_all vs v zs ≡ true
  unfolding clear_of_all
  back_clear-all lo [] a n b c = refl
  back_clear-all lo (z ∷ zs) a n b c = ground (
    arith,
    back_clear-all (vs z).vm_end zs a.2 n (omega (arith, a.0, a.1)) (omega (arith, a.0, a.1)),
  )

  back_lem :
      (lo : ℕ) (zs : List ℕ)
      → Areas vs lo zs
      → (vs v).vm_start < (vs v).vm_end
      → Above zs
      → clear_of_all vs v zs ≡ back_clear zs
  unfolding clear_of_all
  back_lem lo [] a n b = refl
  back_lem lo (z ∷ zs) a n b = elim (Bool-cases (leb (vs v).vm_end (vs z).vm_start)) [
    | inl yes' ↦ ground (
      arith,
      a.1,
      back_clear-all (vs z).vm_end zs a.2 n (omega (arith, a.1, b)) (ground (arith, a.1)),
    )
    | inr no' ↦ ground (arith, a.1)
  ]

  -- The two comparisons tell whether `v` is clear of all areas.
  clear_of_all-gap :
      (lo : ℕ) (ws zs : List ℕ)
      → Areas vs lo (ws ++ zs)
      → (vs v).vm_start < (vs v).vm_end
      → Below ws
      → Above zs
      → clear_of_all vs v (ws ++ zs) ≡ (front_clear ws && back_clear zs)
  unfolding clear_of_all
  clear_of_all-gap lo [] zs a n b c = back_lem lo zs a n c
  clear_of_all-gap lo (w ∷ []) zs a n b c = ground (arith, back_lem (vs w).vm_end zs a.2 n c)
  clear_of_all-gap lo (w ∷ u ∷ ws) zs a n b c =
      ground (arith, clear_of_all-gap (vs w).vm_end (u ∷ ws) zs a.2 n b.1 c)

  Areas-last :
      (lo w : ℕ) (ws zs : List ℕ)
      → Areas vs lo (w ∷ ws ++ zs)
      → (vs w).vm_end ≤ (vs (last w ws)).vm_end
  Areas-last lo w [] zs a = omega arith
  Areas-last lo w (u ∷ ws) zs a = omega (arith, Areas-last (vs w).vm_end u ws zs a.2)

  Areas-insert :
      (lo : ℕ) (ws zs : List ℕ)
      → Areas vs lo (ws ++ zs)
      → lo ≤ (vs v).vm_start
      → (vs v).vm_start < (vs v).vm_end
      → front_clear ws ≡ true
      → back_clear zs ≡ true
      → Areas vs lo (ws ++ v ∷ zs)
  Areas-insert lo [] [] a l n f b = (l, n, tt)
  Areas-insert lo [] (z ∷ zs) a l n f b = (l, n, (ground arith, a.1, a.2))
  Areas-insert lo (w ∷ []) zs a l n f b =
      (a.0, a.1, Areas-insert (vs w).vm_end [] zs a.2 (ground arith) n refl b)
  Areas-insert lo (w ∷ u ∷ ws) zs a l n f b = (
    a.0,
    a.1,
    Areas-insert (vs w).vm_end (u ∷ ws) zs a.2
        (ground (arith, a.2.0, a.2.1, Areas-last (vs w).vm_end u ws zs a.2)) n f b,
  )

module _ (vs ws : ℕ → Vma)
    (same : (u : ℕ) → ((ws u).vm_start ≡ (vs u).vm_start) × ((ws u).vm_end ≡ (vs u).vm_end)) where
  Areas-frame : (lo : ℕ) (xs : List ℕ) → Areas vs lo xs → Areas ws lo xs
  Areas-frame lo [] a = tt
  Areas-frame lo (x ∷ xs) a =
      rw ((same x).0, (same x).1) (a.0, a.1, Areas-frame (vs x).vm_end xs a.2)

-- The loop stops behind the areas in front of the place.
place_loop-last :
    (fuel m le v : ℕ) (s : Space) (ws zs : List ℕ)
    → Chain s.links le (ws ++ zs) m
    → has m (ws ++ zs) ≡ false
    → Below s.vma v ws
    → Above s.vma v zs
    → length (ws ++ zs) < fuel
    → place_loop fuel m le v s ≡ ok (last le ws)
unfolding place_loop
place_loop-last zero m le v s ws zs c d b a f = absurd (omega arith)
place_loop-last (suc fuel) m le v s [] [] c d b a f = ground arith
place_loop-last (suc fuel) m le v s [] (z ∷ zs) c d b a f = ground arith
place_loop-last (suc fuel) m le v s (w ∷ ws) zs c d b a f =
    ground (arith, b.0, place_loop-last fuel m w v s ws zs c.1)

last-ne :
    (m : ℕ) (ws zs : List ℕ) (w : ℕ) → has m ((w ∷ ws) ++ zs) ≡ false → (last w ws == m) ≡ false
last-ne m ws zs w d = ground (arith, has-last w ws, has-append m (w ∷ ws) zs)

-- The checks of the code come to the comparison with the two neighbours.
front_check :
    (s : Space) (m v lo : ℕ) (ws zs : List ℕ)
    → has m (ws ++ zs) ≡ false
    → Areas s.vma lo (ws ++ zs)
    → (s.vma v).vm_start < (s.vma v).vm_end
    → (if last m ws == m then ok tt else check_vma_overlap (s.vma (last m ws)) (s.vma v))
      ≡ assert (front_clear s.vma v ws)
unfolding check_vma_overlap
front_check s m v lo [] zs d a n = ground arith
front_check s m v lo (w ∷ ws) zs d a n =
    ground (arith, last-ne m ws zs w d, last-IsArea s.vma lo w ws zs a)
  where
    last-IsArea :
        (vs : ℕ → Vma) (lo w : ℕ) (ws zs : List ℕ)
        → Areas vs lo (w ∷ ws ++ zs)
        → (vs (last w ws)).vm_start < (vs (last w ws)).vm_end
    last-IsArea vs lo w [] zs a = a.1
    last-IsArea vs lo w (u ∷ ws) zs a = last-IsArea vs (vs w).vm_end u ws zs a.2

back_check :
    (s : Space) (m v lo : ℕ) (ws zs : List ℕ)
    → has m (ws ++ zs) ≡ false
    → Areas s.vma lo (ws ++ zs)
    → (s.vma v).vm_start < (s.vma v).vm_end
    → (if first zs m == m then ok tt else check_vma_overlap (s.vma v) (s.vma (first zs m)))
      ≡ assert (back_clear s.vma v zs)
unfolding check_vma_overlap
back_check s m v lo ws [] d a n = ground arith
back_check s m v lo ws (z ∷ zs) d a n =
    ground (arith, has-append m ws (z ∷ zs), head-IsArea s.vma lo ws z zs a)
  where
    head-IsArea :
        (vs : ℕ → Vma) (lo : ℕ) (ws : List ℕ) (z : ℕ) (zs : List ℕ)
        → Areas vs lo (ws ++ z ∷ zs)
        → (vs z).vm_start < (vs z).vm_end
    head-IsArea vs lo [] z zs a = a.1
    head-IsArea vs lo (w ∷ ws) z zs a = head-IsArea vs (vs w).vm_end ws z zs a.2

-- The state `t` has the areas `xs` of `s` and, at its place among them, `v`; no area has moved.
pub record Inserted (s t : Space) (m v : ℕ) (xs : List ℕ) : Type 0 where
  pub front : List ℕ
  pub back : List ℕ
  pub split : xs ≡ front ++ back
  pub areas : HasAreas t m (front ++ v ∷ back)
  pub owned : (t.vma v).vm_mm ≡ some m
  pub same :
      (u : ℕ) → ((t.vma u).vm_start ≡ (s.vma u).vm_start) × ((t.vma u).vm_end ≡ (s.vma u).vm_end)

-- The writes of `insert_vma_struct`.
abbrev link_vma : ℕ → ℕ → ℕ → Space → Space
link_vma le_prev m v s = record s {
  vma = update s.vma v (record (s.vma v) { vm_mm = some m });
  links = list_add_after le_prev v s.links;
  mm = update s.mm m (record (s.mm m) { map_count = (s.mm m).map_count + 1 });
}

has-insert : (u v : ℕ) (ws zs : List ℕ) → has u (ws ++ zs) ≡ true → has u (ws ++ v ∷ zs) ≡ true
has-insert u v ws zs h = ground (arith, has-append u ws zs, has-append u ws (v ∷ zs))

link_vma-Inserted :
    (s : Space) (m v : ℕ) (ws zs : List ℕ)
    → HasAreas s m (ws ++ zs)
    → has v (m ∷ ws ++ zs) ≡ false
    → (s.vma v).vm_start < (s.vma v).vm_end
    → front_clear s.vma v ws ≡ true
    → back_clear s.vma v zs ≡ true
    → Inserted s (link_vma (last m ws) m v s) m v (ws ++ zs)
link_vma-Inserted s m v ws zs w new n f b =
    let t = link_vma (last m ws) m v s in
    let same : (u : ℕ)
        → ((t.vma u).vm_start ≡ (s.vma u).vm_start) × ((t.vma u).vm_end ≡ (s.vma u).vm_end) =
      λ u. ground arith in
    record {
      front = ws;
      back = zs;
      split = refl;
      areas = record {
        ring = list_add_after-Ring s.links v ws zs w.ring new;
        areas =
            Areas-frame s.vma t.vma same 0 (ws ++ v ∷ zs)
              (Areas-insert s.vma v 0 ws zs w.areas (omega arith) n f b);
        cached = λ u e. has-insert u v ws zs (w.cached u (ground arith));
        counted = ground (arith, w.counted, length-append ws zs, length-append ws (v ∷ zs));
      };
      owned = ground arith;
      same = same;
    }

insert_at :
    (fuel m v : ℕ) (s : Space) (ws zs : List ℕ)
    → HasAreas s m (ws ++ zs)
    → (s.vma v).vm_start < (s.vma v).vm_end
    → Below s.vma v ws
    → Above s.vma v zs
    → length (ws ++ zs) < fuel
    → insert_vma_struct fuel m v s ≡ (
        assert (front_clear s.vma v ws) >>= λ _.
        assert (back_clear s.vma v zs) >>= λ _. ok (link_vma (last m ws) m v s))
unfolding insert_vma_struct
insert_at fuel m v s ws zs w n b a f =
    let size : ltb (s.vma v).vm_start (s.vma v).vm_end ≡ true = ground arith in
    rw
      (
        size,
        place_loop-last fuel m m v s ws zs w.ring.chain w.ring.distinct.0 b a f,
        (Chain-cut s.links m m ws zs w.ring.chain).0,
        front_check s m v 0 ws zs w.ring.distinct.0 w.areas n,
        back_check s m v 0 ws zs w.ring.distinct.0 w.areas n,
      )
      refl

-- For an area that is not empty and not in the list yet, and with fuel above the number of areas,
-- `insert_vma_struct` returns: it puts the area at its place if it is clear of all others, and
-- panics if it has an address in common with one of them.
pub insert_vma_struct-lem :
    (fuel m v : ℕ) (s : Space) (xs : List ℕ)
    → HasAreas s m xs
    → has v (m ∷ xs) ≡ false
    → (s.vma v).vm_start < (s.vma v).vm_end
    → length xs < fuel
    → ((clear_of_all s.vma v xs ≡ true)
        × ((t : Space) × (insert_vma_struct fuel m v s ≡ ok t) × Inserted s t m v xs))
      ⊎ ((clear_of_all s.vma v xs ≡ false) × (insert_vma_struct fuel m v s ≡ panic))
insert_vma_struct-lem fuel m v s xs w new n f =
    let p = place s.vma v xs in
    let w' : HasAreas s m (p.front ++ p.back) = rw p.split at w in
    let new' : has v (m ∷ p.front ++ p.back) ≡ false = rw p.split at new in
    let f' : length (p.front ++ p.back) < fuel = rw p.split at f in
    let run = insert_at fuel m v s p.front p.back w' n p.below p.above f' in
    let gap = clear_of_all-gap s.vma v 0 p.front p.back w'.areas n p.below p.above in
    let gap' = ap (clear_of_all s.vma v) p.split ∙ gap in
    elim (Bool-cases (front_clear s.vma v p.front)) [
      | inr no' ↦ inr (ground (arith, gap'), rw no' at run)
      | inl yes' ↦ elim (Bool-cases (back_clear s.vma v p.back)) [
        | inr no' ↦ inr (ground (arith, gap'), rw (yes', no') at run)
        | inl yes'' ↦ inl (
          ground (arith, gap'),
          (
            link_vma (last m p.front) m v s,
            rw (yes', yes'') at run,
            subst (λ l. Inserted s (link_vma (last m p.front) m v s) m v l) (sym p.split)
                (link_vma-Inserted s m v p.front p.back w' new' n yes' yes''),
          ),
        )
      ]
    ]
