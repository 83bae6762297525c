-- ===== src/Slob/Place.antt =====
-- Where `slob_free` of kern/mm/kmalloc.c puts a block back.
use os_lab.Base.{
  ℕ, ◌<◌, ◌≤◌, ◌≡◌, refl, sym, ap, ◌∙◌, subst, true, false, List, [], ◌∷◌, ◌++◌, has, has-append,
  has-split, ◌==◌, length, length-append, ok, arith,
}
use os_lab.Slob.{Slob, find_place}
use os_lab.Slob.Circle.{first, Linked, Rising, Circle}
use os_lab.Slob.Free.{
  passes, find_place-passes, Linked-append, append-Linked, first-append, Rising-front, Rising-back,
  Gap, find-Gap,
}

passes-last : (b e m : ℕ) (h : Slob) → h.next m ≡ e → e ≤ m → m < b → passes b h m ≡ true
passes-last b e m h n l k = rw n (ground (arith, l, k))

passes-mid : (b z m : ℕ) (h : Slob) → h.next m ≡ z → m < b → b < z → passes b h m ≡ true
passes-mid b z m h n l k = rw n (ground (arith, l, k))

last-passes : (b e m : ℕ) (h : Slob) → h.next m ≡ e → e < b → passes b h m ≡ true → m < b
last-passes b e m h n l p = let q = rw n at p in ground (arith, q, l)

mid-passes : (b z m : ℕ) (h : Slob) → h.next m ≡ z → m < z → passes b h m ≡ true → (m < b) × (b < z)
mid-passes b z m h n l p = let q = rw n at p in ground (arith, q, l)

member-mid : (m : ℕ) (ws zs : List ℕ) → has m (ws ++ m ∷ zs) ≡ true
member-mid m ws zs = ground (arith, has-append m ws (m ∷ zs))

turned : (m c : ℕ) (ws zs : List ℕ) → has m (ws ++ c ∷ zs) ≡ true → has m (c ∷ (zs ++ ws)) ≡ true
turned m c ws zs i = ground (arith, i, has-append m ws (c ∷ zs), has-append m zs ws)

turned_back :
    (m c : ℕ) (ws zs : List ℕ) → has m (c ∷ (zs ++ ws)) ≡ true → has m (ws ++ c ∷ zs) ≡ true
turned_back m c ws zs i = ground (arith, i, has-append m ws (c ∷ zs), has-append m zs ws)

-- Block `n`, behind which `b` belongs.
pub record Place (b n : ℕ) (xs : List ℕ) : Type 0 where
  pub front : List ℕ
  pub back : List ℕ
  pub split : xs ≡ front ++ n ∷ back
  pub low : n < b
  pub high : (z : ℕ) (zs : List ℕ) → back ≡ z ∷ zs → b < z

module _ (b : ℕ) (h : Slob) (xs : List ℕ) (c : Circle h xs) (low : first xs 0 < b)
    (new : has b xs ≡ false) where
  next-of : (n : ℕ) (ws zs : List ℕ) → xs ≡ ws ++ n ∷ zs → h.next n ≡ first zs (first xs 0)
  next-of n ws zs e =
      (Linked-append h.next ws (n ∷ zs) (first xs 0)
        (subst (λ (k : List ℕ). Linked h.next k (first xs 0)) e c.linked)).1.0

  first-below : (n : ℕ) (ws zs : List ℕ) → xs ≡ ws ++ n ∷ zs → first xs 0 ≤ n
  first-below n [] zs e =
      let at : first xs 0 ≡ n = ap (λ (k : List ℕ). first k 0) e in omega (arith, at)
  first-below n (w ∷ ws) zs e =
      let at : first xs 0 ≡ w = ap (λ (k : List ℕ). first k 0) e in
      let less =
        Rising-front h.units 0 n w (w ∷ ws) zs (subst (Rising h.units 0) e c.rising)
          (ground arith) in
      omega (arith, at, less)

  found-Place : (n : ℕ) (ws zs : List ℕ) → xs ≡ ws ++ n ∷ zs → passes b h n ≡ true → Place b n xs
  found-Place n ws [] e p = record {
    front = ws;
    back = [];
    split = e;
    low = last-passes b (first xs 0) n h (next-of n ws [] e) low p;
    high = λ z zs q. absurd (cc);
  }
  found-Place n ws (z ∷ zs) e p =
      let rise : n < z =
        let r = Rising-back h.units 0 n ws (z ∷ zs) (subst (Rising h.units 0) e c.rising) in
        omega (arith, r.1, r.2) in
      let (below, above) = mid-passes b z n h (next-of n ws (z ∷ zs) e) rise p in
      record {
        front = ws;
        back = z ∷ zs;
        split = e;
        low = below;
        high = λ y ys q. let at : y ≡ z = cc in omega (arith, at, above);
      }

  gap-passes :
      (m : ℕ) (ws zs : List ℕ)
      → xs ≡ ws ++ m ∷ zs
      → m < b
      → ((z : ℕ) (ys : List ℕ) → zs ≡ z ∷ ys → b ≤ z)
      → passes b h m ≡ true
  gap-passes m ws [] e l k =
      passes-last b (first xs 0) m h (next-of m ws [] e) (first-below m ws [] e) l
  gap-passes m ws (z ∷ zs) e l k =
      let bound : b ≤ z = k z zs refl in
      let other : has b (ws ++ m ∷ z ∷ zs) ≡ false =
        subst (λ (r : List ℕ). has b r ≡ false) e new in
      let differ : (b == z) ≡ false = ground (arith, other, has-append b ws (m ∷ z ∷ zs)) in
      passes-mid b z m h (next-of m ws (z ∷ zs) e) l (ground (arith, bound, differ))

  Gap-of : (ys : List ℕ) → xs ≡ ys → first ys 0 < b → has h.slobfree ys ≡ true → Gap b ys
  Gap-of [] e l i = absurd (cc)
  Gap-of (y ∷ ys) e l i = find-Gap b y ys l

  -- With fuel for every block the loop finds the place of `b`.
  pub find_place-Place :
      (fuel : ℕ)
      → length xs ≤ fuel
      → (n : ℕ) × (find_place fuel b h.slobfree h ≡ ok n) × Place b n xs
  find_place-Place fuel f =
      let g = Gap-of xs refl low c.member in
      let cur = h.slobfree in
      let (ws, zs, e) = has-split cur xs c.member in
      let (front, back) =
        Linked-append h.next ws (cur ∷ zs) (first xs 0)
          (subst (λ (k : List ℕ). Linked h.next k (first xs 0)) e c.linked) in
      let start : first ws cur ≡ first xs 0 =
        sym (ap (λ (k : List ℕ). first k 0) e ∙ first-append ws zs cur 0 0) in
      let round : Linked h.next (cur ∷ (zs ++ ws)) cur =
        append-Linked h.next (cur ∷ zs) ws cur (rw start back) front in
      let here : has g.place (ws ++ cur ∷ zs) ≡ true =
        subst (λ (k : List ℕ). has g.place k ≡ true) (sym g.split ∙ e)
          (member-mid g.place g.front g.back) in
      let (n, run, i, p) =
        find_place-passes fuel b cur cur g.place h (zs ++ ws) round (turned g.place cur ws zs here)
          (gap-passes g.place g.front g.back g.split g.low g.high)
          (omega (
            arith,
            f,
            ap (λ (k : List ℕ). length k) e,
            length-append ws (cur ∷ zs),
            length-append zs ws,
          )) in
      let there : has n xs ≡ true =
        subst (λ (k : List ℕ). has n k ≡ true) (sym e) (turned_back n cur ws zs i) in
      let (us, vs, q) = has-split n xs there in (n, run, found-Place n us vs q p)
