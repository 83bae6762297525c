-- ===== src/Slob/Alloc.antt =====
-- What `slob_alloc` of kern/mm/kmalloc.c without alignment does to the free list.
use os_lab.Base.{
  ℕ, ◌+◌, ◌<◌, ◌≤◌, ◌≡◌, ◌⊎◌, refl, sym, ap, ◌∙◌, subst, Bool, true, false, List, [], ◌∷◌, ◌++◌,
  has, has-append, has-split, ◌||◌, inl, inr, length, length-append, ok, arith, ltb,
}
use os_lab.Slob.{Slob, take_units, slob_alloc, slob_units, page_size, slob_unit}
use os_lab.Slob.Circle.{first, Linked, Rising, Circle, Rising-above}
use os_lab.Slob.Free.{Linked-append, append-Linked, first-append, Rising-front, Rising-back}
use os_lab.Slob.Take.{Takes}
use os_lab.Slob.Remove.{take_units-Takes}
use os_lab.Slob.Search.{ends, search-Searches}

around :
    (h : Slob) (xs ws zs : List ℕ)
    → Circle h xs
    → xs ≡ ws ++ h.slobfree ∷ zs
    → Linked h.next (h.slobfree ∷ (zs ++ ws)) h.slobfree
around h xs ws zs c e =
    let cur = h.slobfree in
    let (front, back) =
      Linked-append h.next ws (cur ∷ zs) (first xs 0)
        (subst (λ (k : List ℕ). Linked h.next k (first xs 0)) e c.linked) in
    let start : first ws cur ≡ first xs 0 =
      sym (ap (λ (k : List ℕ). first k 0) e ∙ first-append ws zs cur 0 0) in
    append-Linked h.next (cur ∷ zs) ws cur (rw start back) front

same_members : (m c : ℕ) (ws zs : List ℕ) → has m (c ∷ ends (zs ++ ws) c) ≡ has m (ws ++ c ∷ zs)
same_members m c ws zs =
    ground (arith, has-append m (zs ++ ws) (c ∷ []), has-append m zs ws, has-append m ws (c ∷ zs))

neither : (a k : Bool) → (a ≡ true → ⊥) → (k ≡ true → ⊥) → (a || k) ≡ false
neither true k p q = absurd (p refl)
neither false true p q = absurd (q refl)
neither false false p q = refl

once : (f : ℕ → ℕ) (c : ℕ) (ws zs : List ℕ) → Rising f 0 (ws ++ c ∷ zs) → has c (zs ++ ws) ≡ false
once f c ws zs r =
    let b = Rising-back f 0 c ws zs r in
    has-append c zs ws
    ∙ neither (has c zs) (has c ws)
        (λ i. let k = Rising-above f (c + f c) c zs b.2 i in omega (arith, k, b.1))
        (λ i. let k = Rising-front f 0 c c ws zs r i in omega (arith, k))

found-Takes :
    (h : Slob) (xs us vs : List ℕ) (p len : ℕ)
    → Circle h xs
    → h.units (first xs 0) < len
    → 0 < len
    → len ≤ h.units (h.next p)
    → xs ≡ us ++ p ∷ vs
    → (t : Slob) × (take_units len p (h.next p) h ≡ (h.next p, t)) × Takes h t xs (h.next p) len
found-Takes h xs us vs p len c small some fits e =
    let link =
      (Linked-append h.next us (p ∷ vs) (first xs 0)
        (subst (λ (k : List ℕ). Linked h.next k (first xs 0)) e c.linked)).1.0 in
    behind vs e link
  where
    behind :
        (vs : List ℕ)
        → xs ≡ us ++ p ∷ vs
        → h.next p ≡ first vs (first xs 0)
        → (t : Slob) × (take_units len p (h.next p) h ≡ (h.next p, t)) × Takes h t xs (h.next p) len
    behind [] e n =
        let least : len ≤ h.units (first xs 0) = subst (λ (k : ℕ). len ≤ h.units k) n fits in
        absurd (omega (arith, least, small))
    behind (v ∷ vs) e n =
        take_units-Takes h xs us vs p (h.next p) len c
          (e ∙ ap (λ (k : ℕ). us ++ p ∷ k ∷ vs) (sym n)) some fits

drop_head : (m c : ℕ) (ys : List ℕ) → has m (c ∷ ends ys c) ≡ true → has m (ends ys c) ≡ true
drop_head m c ys i = ground (arith, i, has-append m ys (c ∷ []))

enough : (size : ℕ) → 0 < size → 0 < slob_units size
unfolding slob_units
enough size s = omega (arith, s)

-- The free list is a circle of blocks in rising order, the first of which has fewer units than the
-- request, which is of 1 to 4079 bytes. With fuel for every block `slob_alloc` without alignment
-- takes as many units as the request needs off one block that has room, and the list is a circle of
-- blocks in rising order of all other units; or no block has room, and if there are no more pages it
-- returns NULL and changes nothing.
pub slob_alloc-Takes :
    (fuel size : ℕ) (h : Slob) (xs : List ℕ)
    → Circle h xs
    → h.units (first xs 0) < slob_units size
    → 0 < size
    → size + slob_unit < page_size
    → length xs ≤ fuel
    → ((x : ℕ) × (t : Slob) × (slob_alloc fuel size 0 h ≡ ok (x, t))
        × Takes h t xs x (slob_units size))
      ⊎ (((m : ℕ) → has m xs ≡ true → h.units m < slob_units size)
          × (h.pages ≡ [] → slob_alloc fuel size 0 h ≡ ok (0, h)))
unfolding slob_alloc
slob_alloc-Takes fuel size h xs c small some low f =
    let cur = h.slobfree in
    let (ws, zs, e) = has-split cur xs c.member in
    let ys = zs ++ ws in
    let round = around h xs ws zs c e in
    let path : Linked h.next (cur ∷ ends ys cur) (h.next cur) =
      append-Linked h.next (cur ∷ ys) (cur ∷ []) (h.next cur) round (refl, tt) in
    let asserted : ltb (size + slob_unit) page_size ≡ true = ground (arith, low) in
    let count : length ys < fuel = omega (
      arith,
      f,
      ap (λ (k : List ℕ). length k) e,
      length-append ws (cur ∷ zs),
      length-append zs ws,
    ) in
    let member : (m : ℕ) → has m (cur ∷ ends ys cur) ≡ has m xs =
      λ m. same_members m cur ws zs ∙ ap (λ (k : List ℕ). has m k) (sym e) in
    elim (search-Searches fuel size cur (h.next cur) (h.next cur) h ys path round.0
      (once h.units cur ws zs (subst (Rising h.units 0) e c.rising)) count) [
        | inl r ↦
            let (us, vs, q) = has-split r.p xs (sym (member r.p) ∙ r.member) in
            let (t, run, k) =
              found-Takes h xs us vs r.p (slob_units size) c small (enough size some)
                (subst (λ (z : ℕ). slob_units size ≤ h.units z) (sym r.next) r.fits) q in
            inl (
              h.next r.p,
              t,
              rw asserted (
                  r.run
                  ∙ ap (λ (z : ℕ). ok (take_units (slob_units size) r.p z h)) (sym r.next)
                  ∙ ap ok run),
              k,
            )
        | inr (less, none) ↦
            inr ((λ m i. less m (drop_head m cur ys (member m ∙ i))), (λ z. rw asserted (none z)))
      ]
