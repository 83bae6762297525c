-- ===== src/Slob/Release.antt =====
-- What `slob_free` of kern/mm/kmalloc.c does to the free list.
use mathlib.Core.List.{append_assoc}
use os_lab.Base.{
  ℕ, zero, suc, ◌+◌, ◌<◌, ◌≤◌, ◌≡◌, refl, sym, ap, ◌∙◌, subst, Bool, true, false, List, [], ◌∷◌,
  ◌++◌, has, has-append, ◌==◌, ◌||◌, if◌then◌else◌, Bool-cases, ==_iff, inl, inr, length, ok, arith,
}
use os_lab.Pmm.Blocks.{in_range}
use os_lab.Slob.{Slob, set_units, join_next, join_prev, slob_free, slob_units}
use os_lab.Slob.Circle.{
  first, Linked, Rising, covers, Circle, Linked-frame, Rising-frame, covers-frame, join_next-Joined,
  join_prev-Joined,
}
use os_lab.Slob.Free.{
  Linked-append, append-Linked, first-append, Rising-swap, Rising-front, Rising-back, covers-append,
}
use os_lab.Slob.Place.{Place, find_place-Place}

-- The free list afterwards: it holds what it held and the `len` units from `b` on.
pub record Releases (h t : Slob) (xs : List ℕ) (b len : ℕ) : Type 0 where
  pub after : List ℕ
  pub valid : Circle t after
  pub lowest : first after 0 ≡ first xs 0
  pub covering : (q : ℕ) → covers t.units after q ≡ (covers h.units xs q || in_range b len q)

-- The state behind the loop, where `n` is the place of `b`.
abbrev released : ℕ → ℕ → Slob → Slob
released b n h = record (join_prev b n (join_next b n h)) { slobfree = n }

shuffle : (a n b c : Bool) → (a || (n || (b || c))) ≡ ((a || (n || c)) || b)
shuffle true n b c = refl
shuffle false true b c = refl
shuffle false false true c = ground arith
shuffle false false false c = ground arith

covers-mid : (f : ℕ → ℕ) (z : ℕ) (ws zs : List ℕ) → 0 < f z → covers f (ws ++ z ∷ zs) z ≡ true
covers-mid f z ws zs s = covers-append f ws (z ∷ zs) z ∙ ground (arith, s)

module _ (b n : ℕ) (h : Slob) (xs : List ℕ) (c : Circle h xs) (low : first xs 0 < b)
    (some : 0 < h.units b)
    (new : (q : ℕ) → in_range b (h.units b) q ≡ true → covers h.units xs q ≡ false)
    (p : Place b n xs) where
  split-Linked : Linked h.next (p.front ++ n ∷ p.back) (first xs 0)
  split-Linked = subst (λ (k : List ℕ). Linked h.next k (first xs 0)) p.split c.linked

  split-Rising : Rising h.units 0 (p.front ++ n ∷ p.back)
  split-Rising = subst (Rising h.units 0) p.split c.rising

  -- `b` lies behind the units of `n`, and its own units end before the next block.
  behind_place : n + h.units n ≤ b
  behind_place =
      let free : covers h.units (p.front ++ n ∷ p.back) b ≡ false =
        subst (λ (k : List ℕ). covers h.units k b ≡ false) p.split (new b (ground (arith, some))) in
      let parts = sym (covers-append h.units p.front (n ∷ p.back) b) ∙ free in
      outside (covers h.units p.front b) (covers h.units p.back b) parts p.low
    where
      outside :
          (a k : Bool) → (a || (in_range n (h.units n) b || k)) ≡ false → n < b → n + h.units n ≤ b
      outside a k q l = ground (arith, q, l)

  before_next : (zs : List ℕ) → p.back ≡ zs → Rising h.units (b + h.units b) zs
  before_next [] e = tt
  before_next (z ∷ zs) e =
      let r =
        subst (Rising h.units (n + h.units n)) e
          (Rising-back h.units 0 n p.front p.back split-Rising).2 in
      let above : b < z = p.high z zs e in
      let whole : xs ≡ (p.front ++ n ∷ []) ++ z ∷ zs = p.split ∙ rw (e, append_assoc) refl in
      let held : covers h.units xs z ≡ true =
        subst (λ (k : List ℕ). covers h.units k z ≡ true) (sym whole)
          (covers-mid h.units z (p.front ++ n ∷ []) zs r.1) in
      (clear z above held, r.1, r.2)
    where
      differ : (q : Bool) → q ≡ true → q ≡ false → ⊥
      differ q u v = cc

      clear : (z : ℕ) → b < z → covers h.units xs z ≡ true → b + h.units b ≤ z
      clear z l k = elim (Bool-cases (in_range b (h.units b) z)) [
        | inl i ↦ absurd (differ (covers h.units xs z) k (new z i))
        | inr o ↦ ground (arith, o, l)
      ]

  released-Releases : Releases h (released b n h) xs b (h.units b)
  released-Releases =
      let l = Linked-append h.next p.front (n ∷ p.back) (first xs 0) split-Linked in
      let r = Rising-back h.units 0 n p.front p.back split-Rising in
      let j =
        join_next-Joined n b (first xs 0) h p.back l.1.0 l.1.1 (before_next p.back refl) some low in
      let g = join_next b n h in
      let kept : g.units n ≡ h.units n = j.units_below n p.low in
      let k =
        join_prev-Joined n b (first xs 0) g j.rest j.linked j.rising (rw kept behind_place)
          (rw kept r.1) in
      let t = released b n h in
      let ys = p.front ++ n ∷ k.rest in
      let same_first : first ys 0 ≡ first xs 0 =
        first-append p.front k.rest n 0 0
        ∙ sym (ap (λ (z : List ℕ). first z 0) p.split ∙ first-append p.front p.back n 0 0) in
      let units : (u : ℕ) → u < n → t.units u ≡ h.units u =
        λ u m. k.units_below u m ∙ j.units_below u (omega (arith, m, p.low)) in
      let next : (u : ℕ) → u < n → t.next u ≡ h.next u =
        λ u m. k.next_below u m ∙ j.next_below u (omega (arith, m, p.low)) in
      let in_front : (u : ℕ) → has u p.front ≡ true → u < n =
        λ u i. Rising-front h.units 0 n u p.front p.back split-Rising i in
      record {
        after = ys;
        valid = record {
          linked = rw same_first (
              append-Linked t.next p.front (n ∷ k.rest) (first xs 0)
                (Linked-frame h.next t.next p.front n (λ u i. next u (in_front u i)) l.0) k.linked);
          rising =
              Rising-swap h.units t.units 0 n p.front p.back k.rest split-Rising units k.rising;
          member = ground (arith, has-append n p.front (n ∷ k.rest));
        };
        lowest = same_first;
        covering = λ q.
            let a = covers-frame h.units t.units p.front q (λ u i. units u (in_front u i)) in
            let whole =
              ap (λ (z : List ℕ). covers h.units z q) p.split
              ∙ covers-append h.units p.front (n ∷ p.back) q in
            covers-append t.units p.front (n ∷ k.rest) q
            ∙ rw (a, k.covering q, kept, j.covering q, whole)
                (shuffle (covers h.units p.front q) (in_range n (h.units n) q)
                  (in_range b (h.units b) q) (covers h.units p.back q));
      }

-- A block covers its first unit.
member-covers :
    (f : ℕ → ℕ) (lo u : ℕ) (xs : List ℕ) → Rising f lo xs → has u xs ≡ true → covers f xs u ≡ true
member-covers f lo u [] r i = absurd (cc)
member-covers f lo u (x ∷ xs) r i = ground (arith, i, r.1, member-covers f (x + f x) u xs r.2)

absent :
    (f : ℕ → ℕ) (b : ℕ) (xs : List ℕ) → Rising f 0 xs → covers f xs b ≡ false → has b xs ≡ false
absent f b xs r n = elim (Bool-cases (has b xs)) [
  | inl i ↦ absurd (differ (covers f xs b) (member-covers f 0 b xs r i) n)
  | inr o ↦ o
]
  where
    differ : (q : Bool) → q ≡ true → q ≡ false → ⊥
    differ q u v = cc

kept :
    (b len : ℕ) (h : Slob) (xs : List ℕ)
    → has b xs ≡ false
    → (u : ℕ) → has u xs ≡ true
    → (set_units b len h).units u ≡ h.units u
kept b len h xs a u i = elim (Bool-cases (u == b)) [
  | inl e ↦
      let at : u ≡ b = (==_iff u b).0 e in
      absurd (differ (has b xs) (subst (λ (v : ℕ). has v xs ≡ true) at i) a)
  | inr e ↦ rw e refl
]
  where
    differ : (q : Bool) → q ≡ true → q ≡ false → ⊥
    differ q u v = cc

release_sized :
    (fuel b : ℕ) (h : Slob) (xs : List ℕ)
    → Circle h xs
    → first xs 0 < b
    → 0 < h.units b
    → ((q : ℕ) → in_range b (h.units b) q ≡ true → covers h.units xs q ≡ false)
    → length xs ≤ fuel
    → (t : Slob) × (slob_free fuel b 0 h ≡ ok t) × Releases h t xs b (h.units b)
unfolding slob_free
release_sized fuel b h xs c low some new f =
    let there : (b == 0) ≡ false = ground (arith, low) in
    let (n, run, p) =
      find_place-Place b h xs c low (absent h.units b xs c.rising (new b (ground (arith, some))))
        fuel f in
    (released b n h, rw (there, run) refl, released-Releases b n h xs c low some new p)

if_suc : (k a b : ℕ) → (if suc k == 0 then a else b) ≡ b
if_suc k a b = ground arith

slob_free-set_units :
    (fuel b k : ℕ) (h : Slob)
    → 0 < b
    → slob_free fuel b (suc k) h ≡ slob_free fuel b 0 (set_units b (slob_units (suc k)) h)
unfolding slob_free
slob_free-set_units fuel b k h l =
    let there : (b == 0) ≡ false = ground (arith, l) in
    let sized : (suc k == 0) ≡ false = ground arith in rw (there, sized) refl

-- The free list is a circle of blocks in rising order, and block `b` lies above the first of them and
-- shares no unit with any of them. It is given back with its size, or with the size 0 and its length
-- in `units`. Then `slob_free` returns, with fuel for every block: the list is a circle of blocks in
-- rising order with the same first block, and holds the units that it held and those of `b`.
pub slob_free-Releases :
    (fuel b size : ℕ) (h : Slob) (xs : List ℕ)
    → Circle h xs
    → first xs 0 < b
    → let len = if size == 0 then h.units b else slob_units size in
      0 < len
      → ((q : ℕ) → in_range b len q ≡ true → covers h.units xs q ≡ false)
      → length xs ≤ fuel
      → (t : Slob) × (slob_free fuel b size h ≡ ok t) × Releases h t xs b len
unfolding slob_free
slob_free-Releases fuel b zero h xs c low some new f = release_sized fuel b h xs c low some new f
slob_free-Releases fuel b (suc k) h xs c low some new f =
    let len = slob_units (suc k) in
    let g = set_units b len h in
    let low_zero : 0 < b = omega (arith, low) in
    let some' : 0 < len = subst (λ (l : ℕ). 0 < l) (if_suc k (h.units b) len) some in
    let new' : (q : ℕ) → in_range b len q ≡ true → covers h.units xs q ≡ false =
      subst (λ (l : ℕ). (q : ℕ) → in_range b l q ≡ true → covers h.units xs q ≡ false)
        (if_suc k (h.units b) len) new in
    let same : (u : ℕ) → has u xs ≡ true → g.units u ≡ h.units u =
      kept b len h xs (absent h.units b xs c.rising (new' b (ground (arith, some')))) in
    let at_b : g.units b ≡ len = ground arith in
    let cover : (q : ℕ) → covers g.units xs q ≡ covers h.units xs q =
      λ q. covers-frame h.units g.units xs q same in
    let circle : Circle g xs = record {
      linked = c.linked;
      rising = Rising-frame h.units g.units 0 xs same c.rising;
      member = c.member;
    } in
    let (t, run, r) =
      release_sized fuel b g xs circle low (rw at_b some')
        (λ q i. cover q ∙ new' q (subst (λ (l : ℕ). in_range b l q ≡ true) at_b i)) f in
    let made : Releases h t xs b len = record {
      after = r.after;
      valid = r.valid;
      lowest = r.lowest;
      covering = λ q. r.covering q ∙ rw (cover q, at_b) refl;
    } in
    (
      t,
      slob_free-set_units fuel b k h low_zero ∙ run,
      subst (λ (l : ℕ). Releases h t xs b l) (sym (if_suc k (h.units b) len)) made,
    )
