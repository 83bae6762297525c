-- ===== src/Slob/Free.antt =====
-- `slob_free` of kern/mm/kmalloc.c on a circle of blocks.
use os_lab.Base.{
  ℕ, zero, suc, ◌+◌, ◌<◌, ◌≤◌, ◌≡◌, inl, inr, refl, ap, ◌∙◌, subst, Bool, true, false, List, [],
  ◌∷◌, ◌++◌, has, has-append, ◌==◌, ◌&&◌, ◌||◌, ltb, leb, if◌then◌else◌, Bool-cases, ==_iff, length,
  ok, arith,
}
use os_lab.Slob.{Slob, find_place}
use os_lab.Slob.Circle.{first, Linked, Rising, covers, Rising-above}

-- The tests of the loop of `slob_free` at `cur`.
abbrev pub passes : ℕ → Slob → ℕ → Bool
passes b h cur =
    let at = h.next cur in (ltb cur b && ltb b at) || (leb at cur && (ltb cur b || ltb b at))

find_place-step :
    (fuel b cur : ℕ) (h : Slob)
    → find_place (suc fuel) b cur h
      ≡ (if passes b h cur then ok cur else find_place fuel b (h.next cur) h)
unfolding find_place
find_place-step fuel b cur h = elim (Bool-cases (ltb cur b && ltb b (h.next cur))) [
  | inl e ↦ rw e refl
  | inr e ↦ rw e refl
]

only-member : (m c : ℕ) → has m (c ∷ []) ≡ true → m ≡ c
only-member m c i = ground (arith, i)

head-member : (c : ℕ) (l : List ℕ) → has c (c ∷ l) ≡ true
head-member c l = ground arith

-- The loop stops at a block that passes, if there is one on its way.
pub find_place-passes :
    (fuel b e cur m : ℕ) (h : Slob) (l : List ℕ)
    → Linked h.next (cur ∷ l) e
    → has m (cur ∷ l) ≡ true
    → passes b h m ≡ true
    → length l < fuel
    → (n : ℕ) × (find_place fuel b cur h ≡ ok n) × (has n (cur ∷ l) ≡ true) × (passes b h n ≡ true)
unfolding find_place
find_place-passes zero b e cur m h l k i p f = absurd (omega (arith, f))
find_place-passes (suc fuel) b e cur m h [] k i p f =
    let at : m ≡ cur = only-member m cur i in
    let here : passes b h cur ≡ true = subst (λ (c : ℕ). passes b h c ≡ true) at p in
    (cur, find_place-step fuel b cur h ∙ rw here refl, head-member cur [], here)
find_place-passes (suc fuel) b e cur m h (y ∷ l) k i p f = elim (Bool-cases (passes b h cur)) [
  | inl t ↦ (cur, find_place-step fuel b cur h ∙ rw t refl, head-member cur (y ∷ l), t)
  | inr t ↦
      let later : has m (y ∷ l) ≡ true = elim (Bool-cases (m == cur)) [
        | inl same ↦
            let at : m ≡ cur = (==_iff m cur).0 same in
            let here : passes b h cur ≡ true = subst (λ (c : ℕ). passes b h c ≡ true) at p in
            absurd (differ (passes b h cur) here t)
        | inr other ↦ rest (m == cur) (has m (y ∷ l)) i other
      ] in
      let (n, run, member, hit) =
        find_place-passes fuel b e y m h l k.1 later p (omega (arith, f)) in
      (
        n,
        find_place-step fuel b cur h ∙ rw (t, k.0) run,
        behind (n == cur) (has n (y ∷ l)) member,
        hit,
      )
]
  where
    differ : (q : Bool) → q ≡ true → q ≡ false → ⊥
    differ q u v = cc

    rest : (q r : Bool) → (q || r) ≡ true → q ≡ false → r ≡ true
    rest q r u v = ground (arith, u, v)

    behind : (q r : Bool) → r ≡ true → (q || r) ≡ true
    behind q r u = ground (arith, u)

pub Linked-append :
    (g : ℕ → ℕ) (ws zs : List ℕ) (e : ℕ)
    → Linked g (ws ++ zs) e
    → Linked g ws (first zs e) × Linked g zs e
Linked-append g [] zs e l = (tt, l)
Linked-append g (w ∷ []) zs e l = ((l.0, tt), l.1)
Linked-append g (w ∷ v ∷ ws) zs e l =
    let rest = Linked-append g (v ∷ ws) zs e l.1 in ((l.0, rest.0), rest.1)

pub append-Linked :
    (g : ℕ → ℕ) (ws zs : List ℕ) (e : ℕ)
    → Linked g ws (first zs e)
    → Linked g zs e
    → Linked g (ws ++ zs) e
append-Linked g [] zs e l k = k
append-Linked g (w ∷ []) zs e l k = (l.0, k)
append-Linked g (w ∷ v ∷ ws) zs e l k = (l.0, append-Linked g (v ∷ ws) zs e l.1 k)

pub first-append : (ws zs : List ℕ) (x e e' : ℕ) → first (ws ++ x ∷ zs) e ≡ first ws x
first-append [] zs x e e' = refl
first-append (w ∷ ws) zs x e e' = refl

-- The part of a rising list from block `n` on may change.
pub Rising-swap :
    (f f' : ℕ → ℕ) (lo n : ℕ) (ws zs zs' : List ℕ)
    → Rising f lo (ws ++ n ∷ zs)
    → ((u : ℕ) → u < n → f' u ≡ f u)
    → Rising f' n (n ∷ zs')
    → Rising f' lo (ws ++ n ∷ zs')
Rising-swap f f' lo n [] zs zs' r same k = (r.0, k.1, k.2)
Rising-swap f f' lo n (w ∷ ws) zs zs' r same k =
    let low : w < n =
      let member : has n (ws ++ n ∷ zs) ≡ true = ground (arith, has-append n ws (n ∷ zs)) in
      omega (arith, r.1, Rising-above f (w + f w) n (ws ++ n ∷ zs) r.2 member) in
    rw (same w low) (r.0, r.1, Rising-swap f f' (w + f w) n ws zs zs' r.2 same k)

pub covers-append :
    (f : ℕ → ℕ) (ws zs : List ℕ) (q : ℕ) → covers f (ws ++ zs) q ≡ (covers f ws q || covers f zs q)
covers-append f [] zs q = refl
covers-append f (w ∷ ws) zs q = rw (covers-append f ws zs q) (ground arith)

-- The blocks in front of a block lie below it.
pub Rising-front :
    (f : ℕ → ℕ) (lo n u : ℕ) (ws zs : List ℕ) → Rising f lo (ws ++ n ∷ zs) → has u ws ≡ true → u < n
Rising-front f lo n u [] zs r i = absurd (cc)
Rising-front f lo n u (w ∷ ws) zs r i =
    let member : has n (ws ++ n ∷ zs) ≡ true = ground (arith, has-append n ws (n ∷ zs)) in
    let low = Rising-above f (w + f w) n (ws ++ n ∷ zs) r.2 member in
    ground (arith, low, r.1, Rising-front f (w + f w) n u ws zs r.2)

pub Rising-back :
    (f : ℕ → ℕ) (lo n : ℕ) (ws zs : List ℕ) → Rising f lo (ws ++ n ∷ zs) → Rising f n (n ∷ zs)
Rising-back f lo n [] zs r = (omega arith, r.1, r.2)
Rising-back f lo n (w ∷ ws) zs r = Rising-back f (w + f w) n ws zs r.2

-- The last block that begins below `b`.
pub record Gap (b : ℕ) (xs : List ℕ) : Type 0 where
  pub front : List ℕ
  pub place : ℕ
  pub back : List ℕ
  pub split : xs ≡ front ++ place ∷ back
  pub low : place < b
  pub high : (z : ℕ) (zs : List ℕ) → back ≡ z ∷ zs → b ≤ z

pub find-Gap : (b x : ℕ) (xs : List ℕ) → x < b → Gap b (x ∷ xs)
find-Gap b x [] l = record {
  front = [];
  place = x;
  back = [];
  split = refl;
  low = l;
  high = λ z zs e. absurd (cc);
}
find-Gap b x (y ∷ xs) l = elim (Bool-cases (ltb y b)) [
  | inl below ↦
      let g = find-Gap b y xs (ground (arith, below)) in
      record {
        front = x ∷ g.front;
        place = g.place;
        back = g.back;
        split = ap (λ (k : List ℕ). x ∷ k) g.split;
        low = g.low;
        high = g.high;
      }
  | inr above ↦ record {
    front = [];
    place = x;
    back = y ∷ xs;
    split = refl;
    low = l;
    high = λ z zs e.
        let at : z ≡ y = cc in let k : b ≤ y = ground (arith, above) in omega (arith, at, k);
  }
]
