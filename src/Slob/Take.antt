-- ===== src/Slob/Take.antt =====
-- `slob_alloc` of kern/mm/kmalloc.c where a block has room: what is taken, and what stays free.
use os_lab.Base.{
  ℕ, ◌+◌, ◌-◌, ◌<◌, ◌≤◌, ◌≡◌, refl, ◌∙◌, Bool, true, false, List, [], ◌∷◌, ◌++◌, has, has-append,
  ◌==◌, ◌&&◌, ◌||◌, arith,
}
use os_lab.Links.{update}
use os_lab.Pmm.Blocks.{in_range}
use os_lab.Slob.{Slob, set_next}
use os_lab.Slob.Circle.{
  first, Linked, Rising, covers, Circle, Linked-frame, Rising-frame, covers-frame, Rising-above,
  Rising-lower, update-same,
}

-- The `len` units from `x` on are taken: the free list keeps the others.
pub record Takes (h t : Slob) (xs : List ℕ) (x len : ℕ) : Type 0 where
  pub after : List ℕ
  pub valid : Circle t after
  pub lowest : first after 0 ≡ first xs 0
  pub covering : (q : ℕ) → covers h.units xs q ≡ (covers t.units after q || in_range x len q)
  pub apart : (q : ℕ) → (covers t.units after q && in_range x len q) ≡ false
  pub size : t.units x ≡ len

-- The part of the list from `prev` on.
pub record Tail (h t : Slob) (prev cur len e : ℕ) (back : List ℕ) : Type 0 where
  pub rest : List ℕ
  pub linked : Linked t.next (prev ∷ rest) e
  pub rising : Rising t.units prev (prev ∷ rest)
  pub covering :
      (q : ℕ)
      → covers h.units (prev ∷ cur ∷ back) q
        ≡ (covers t.units (prev ∷ rest) q || in_range cur len q)
  pub apart : (q : ℕ) → (covers t.units (prev ∷ rest) q && in_range cur len q) ≡ false
  pub units_below : (u : ℕ) → u < prev → t.units u ≡ h.units u
  pub next_below : (u : ℕ) → u < prev → t.next u ≡ h.next u
  pub size : t.units cur ≡ len

moved : (a b c : Bool) → (a || (b || c)) ≡ ((a || c) || b)
moved true b c = refl
moved false true c = ground arith
moved false false c = ground arith

pub update-other : (f : ℕ → ℕ) (p v u : ℕ) → (u == p) ≡ false → update f p v u ≡ f u
update-other f p v u e = rw e refl

differ_lt : (a b : ℕ) → a < b → (a == b) ≡ false
differ_lt a b l = ground (arith, l)

pub differ_gt : (a b : ℕ) → b < a → (a == b) ≡ false
differ_gt a b l = ground (arith, l)

range-apart :
    (a k c len q : ℕ) (b : Bool)
    → a + k ≤ c
    → (q < c + len → b ≡ false)
    → ((in_range a k q || b) && in_range c len q) ≡ false
range-apart a k c len q b l f = ground (arith, l, f)

range-cut :
    (p : Bool) (c k len d q : ℕ) (b : Bool)
    → k ≡ len + d
    → (p || (in_range c k q || b)) ≡ ((p || (in_range (c + len) d q || b)) || in_range c len q)
range-cut p c k len d q b e = rw e (ground arith)

range-above : (a k q : ℕ) (b : Bool) → q < a → b ≡ false → (in_range a k q || b) ≡ false
range-above a k q b l e = ground (arith, l, e)

-- Nothing below the bound is covered.
covers-below :
    (f : ℕ → ℕ) (lo q : ℕ) (xs : List ℕ) → Rising f lo xs → q < lo → covers f xs q ≡ false
covers-below f lo q [] r l = refl
covers-below f lo q (x ∷ xs) r l =
    let rest = covers-below f (x + f x) q xs r.2 (omega (arith, r.0, l)) in
    ground (arith, rest, r.0, l)

pub covers-front :
    (f : ℕ → ℕ) (lo n q : ℕ) (ws zs : List ℕ)
    → Rising f lo (ws ++ n ∷ zs)
    → n ≤ q
    → covers f ws q ≡ false
covers-front f lo n q [] zs r l = refl
covers-front f lo n q (w ∷ ws) zs r l =
    let member : has n (ws ++ n ∷ zs) ≡ true = ground (arith, has-append n ws (n ∷ zs)) in
    let end = Rising-above f (w + f w) n (ws ++ n ∷ zs) r.2 member in
    let rest = covers-front f (w + f w) n q ws zs r.2 l in ground (arith, rest, end, l)

module _ (prev cur len e : ℕ) (h : Slob) (back : List ℕ) (l : Linked h.next (prev ∷ cur ∷ back) e)
    (r : Rising h.units prev (prev ∷ cur ∷ back)) (some : 0 < len) (fits : len ≤ h.units cur) where
  pub after_prev : prev < cur
  after_prev = omega (arith, r.1, r.2.0)

  far : (u : ℕ) → has u back ≡ true → cur + h.units cur ≤ u
  far u i = Rising-above h.units (cur + h.units cur) u back r.2.2 i

  clear : (q : ℕ) → q < cur + h.units cur → covers h.units back q ≡ false
  clear q k = covers-below h.units (cur + h.units cur) q back r.2.2 k

  pub take_all :
      h.units cur ≡ len
      → Tail h (record (set_next prev (h.next cur) h) { slobfree = prev }) prev cur len e back
  take_all s =
      let stay : (u : ℕ) → has u back ≡ true → update h.next prev (h.next cur) u ≡ h.next u = λ u i.
        let k = far u i in
        update-other h.next prev (h.next cur) u (differ_gt u prev (omega (arith, k, after_prev))) in
      record {
        rest = back;
        linked = (
          update-same h.next prev (h.next cur) ∙ l.1.0,
          Linked-frame h.next (update h.next prev (h.next cur)) back e stay l.1.1,
        );
        rising = (
          omega arith,
          r.1,
          Rising-lower h.units (cur + h.units cur) (prev + h.units prev) back (omega (arith, r.2.0))
              r.2.2,
        );
        covering = λ q.
            rw s
              (moved (in_range prev (h.units prev) q) (in_range cur len q) (covers h.units back q));
        apart = λ q.
            range-apart prev (h.units prev) cur len q (covers h.units back q) r.2.0
              (λ k. clear q (omega (arith, k, s)));
        units_below = λ u k. refl;
        next_below = λ u k. update-other h.next prev (h.next cur) u (differ_lt u prev k);
        size = s;
      }

  -- The state where `len` units of a larger block are taken.
  abbrev pub cut : Slob
  cut = record h {
    units = update (update h.units (cur + len) (h.units cur - len)) cur len;
    next = update (update h.next prev (cur + len)) (cur + len) (h.next cur);
    slobfree = prev;
  }

  pub take_part : len < h.units cur → Tail h cut prev cur len e back
  take_part s =
      let m = cur + len in
      let d = h.units cur - len in
      let prev_m : (prev == m) ≡ false = differ_lt prev m (omega (arith, after_prev)) in
      let g = update h.next prev m in
      let f = update h.units m d in
      let next_m : cut.next m ≡ h.next cur = update-same g m (h.next cur) in
      let next_prev : cut.next prev ≡ m =
        update-other g m (h.next cur) prev prev_m ∙ update-same h.next prev m in
      let units_m : cut.units m ≡ d =
        update-other f cur len m (differ_gt m cur (omega (arith, some)))
        ∙ update-same h.units m d in
      let units_prev : cut.units prev ≡ h.units prev =
        update-other f cur len prev (differ_lt prev cur after_prev)
        ∙ update-other h.units m d prev prev_m in
      let same_next : (u : ℕ) → has u back ≡ true → cut.next u ≡ h.next u = λ u i.
        let k = far u i in
        update-other g m (h.next cur) u (differ_gt u m (omega (arith, k, s)))
        ∙ update-other h.next prev m u (differ_gt u prev (omega (arith, k, after_prev))) in
      let same_units : (u : ℕ) → has u back ≡ true → cut.units u ≡ h.units u = λ u i.
        let k = far u i in
        update-other f cur len u (differ_gt u cur (omega (arith, k, s)))
        ∙ update-other h.units m d u (differ_gt u m (omega (arith, k, s))) in
      let last : m + (h.units cur - len) ≡ cur + h.units cur = omega (arith, s) in
      record {
        rest = m ∷ back;
        linked = (next_prev, (next_m ∙ l.1.0, Linked-frame h.next cut.next back e same_next l.1.1));
        rising = (
          omega arith,
          rw units_prev r.1,
          (
            rw units_prev (omega (arith, r.2.0)),
            rw units_m (omega (arith, s)),
            rw (units_m, last)
                (Rising-frame h.units cut.units (cur + h.units cur) back same_units r.2.2),
          ),
        );
        covering = λ q.
            rw (units_prev, units_m, covers-frame h.units cut.units back q same_units)
              (range-cut (in_range prev (h.units prev) q) cur (h.units cur) len d q
                (covers h.units back q) (omega (arith, s)));
        apart = λ q.
            rw (units_prev, units_m, covers-frame h.units cut.units back q same_units)
              (range-apart prev (h.units prev) cur len q (in_range m d q || covers h.units back q)
                r.2.0
                (λ k. range-above m d q (covers h.units back q) k (clear q (omega (arith, k, s)))));
        units_below = λ u k.
            update-other f cur len u (differ_lt u cur (omega (arith, k, after_prev)))
            ∙ update-other h.units m d u (differ_lt u m (omega (arith, k, after_prev)));
        next_below = λ u k.
            update-other g m (h.next cur) u (differ_lt u m (omega (arith, k, after_prev)))
            ∙ update-other h.next prev m u (differ_lt u prev k);
        size = update-same f cur len;
      }
