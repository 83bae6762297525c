-- ===== src/Slob/Circle.antt =====
-- The free list of kern/mm/kmalloc.c as a circle of blocks in rising order.
use os_lab.Base.{
  ℕ, ◌+◌, ◌<◌, ◌≤◌, ◌≡◌, inl, inr, refl, ap, ◌∙◌, Bool, true, false, List, [], ◌∷◌, has, ◌==◌, ◌||◌,
  Bool-cases, arith,
}
use os_lab.Links.{update}
use os_lab.Pmm.Blocks.{in_range}
use os_lab.Slob.{Slob, join_next, join_prev}

abbrev pub first : List ℕ → ℕ → ℕ
first [] e = e
first (x ∷ xs) e = x

-- The `next` pointers run through the blocks and on to `e`.
abbrev pub Linked : (ℕ → ℕ) → List ℕ → ℕ → Type 0
Linked next [] e = Unit
Linked next (x ∷ xs) e = (next x ≡ first xs e) × Linked next xs e

-- The blocks lie at or above `lo`, in rising order, apart from one another.
abbrev pub Rising : (ℕ → ℕ) → ℕ → List ℕ → Type 0
Rising units lo [] = Unit
Rising units lo (x ∷ xs) = (lo ≤ x) × (0 < units x) × Rising units (x + units x) xs

-- Unit `q` lies in one of the blocks.
abbrev pub covers : (ℕ → ℕ) → List ℕ → ℕ → Bool
covers units [] q = false
covers units (x ∷ xs) q = in_range x (units x) q || covers units xs q

-- The free list holds the blocks `xs`; `slobfree` is one of them.
pub record Circle (h : Slob) (xs : List ℕ) : Type 0 where
  pub linked : Linked h.next xs (first xs 0)
  pub rising : Rising h.units 0 xs
  pub member : has h.slobfree xs ≡ true

pub Linked-frame :
    (f g : ℕ → ℕ) (xs : List ℕ) (e : ℕ)
    → ((u : ℕ) → has u xs ≡ true → g u ≡ f u)
    → Linked f xs e
    → Linked g xs e
Linked-frame f g [] e same l = tt
Linked-frame f g (x ∷ xs) e same l =
    (same x (ground arith) ∙ l.0, Linked-frame f g xs e (λ u i. same u (ground arith)) l.1)

pub Rising-frame :
    (f g : ℕ → ℕ) (lo : ℕ) (xs : List ℕ)
    → ((u : ℕ) → has u xs ≡ true → g u ≡ f u)
    → Rising f lo xs
    → Rising g lo xs
Rising-frame f g lo [] same r = tt
Rising-frame f g lo (x ∷ xs) same r =
    let e : g x ≡ f x = same x (ground arith) in
    rw e (r.0, r.1, Rising-frame f g (x + f x) xs (λ u i. same u (ground arith)) r.2)

pub covers-frame :
    (f g : ℕ → ℕ) (xs : List ℕ) (q : ℕ)
    → ((u : ℕ) → has u xs ≡ true → g u ≡ f u)
    → covers g xs q ≡ covers f xs q
covers-frame f g [] q same = refl
covers-frame f g (x ∷ xs) q same =
    let e : g x ≡ f x = same x (ground arith) in
    let rest = covers-frame f g xs q (λ u i. same u (ground arith)) in rw (e, rest) refl

-- Every block of the list lies at or above the bound.
pub Rising-above : (f : ℕ → ℕ) (lo u : ℕ) (xs : List ℕ) → Rising f lo xs → has u xs ≡ true → lo ≤ u
Rising-above f lo u [] r h = absurd (cc)
Rising-above f lo u (x ∷ xs) r h =
    let rest = Rising-above f (x + f x) u xs r.2 in ground (arith, rest, r.0, r.1)

pub Rising-lower :
    (f : ℕ → ℕ) (lo lo' : ℕ) (xs : List ℕ) → lo' ≤ lo → Rising f lo xs → Rising f lo' xs
Rising-lower f lo lo' [] l r = tt
Rising-lower f lo lo' (x ∷ xs) l r = (omega (arith, r.0, l), r.1, r.2)

-- The blocks from `b` on after a change of the store from `f` and `g` to `f'` and `g'`; what they
-- hold is `held`, and nothing has changed below `b`.
pub record Joined (f g f' g' : ℕ → ℕ) (b e : ℕ) (held : ℕ → Bool) : Type 0 where
  pub rest : List ℕ
  pub linked : Linked g' (b ∷ rest) e
  pub rising : Rising f' b (b ∷ rest)
  pub covering : (q : ℕ) → covers f' (b ∷ rest) q ≡ held q
  pub units_below : (u : ℕ) → u < b → f' u ≡ f u
  pub next_below : (u : ℕ) → u < b → g' u ≡ g u

pub update-same : (f : ℕ → ℕ) (b v : ℕ) → update f b v b ≡ v
update-same f b v = ground arith

range-join :
    (a k m j q : ℕ) (rest : Bool)
    → m ≡ a + k
    → (in_range a (k + j) q || rest) ≡ (in_range a k q || (in_range m j q || rest))
range-join a k m j q rest e = rw e (ground arith)

-- A change of the block `b` alone.
put-Joined :
    (f g f' g' : ℕ → ℕ) (b e : ℕ) (rest : List ℕ) (held : ℕ → Bool)
    → ((u : ℕ) → (u == b) ≡ false → f' u ≡ f u)
    → ((u : ℕ) → (u == b) ≡ false → g' u ≡ g u)
    → g' b ≡ first rest e
    → Linked g rest e
    → 0 < f' b
    → Rising f (b + f' b) rest
    → ((q : ℕ) → (in_range b (f' b) q || covers f rest q) ≡ held q)
    → Joined f g f' g' b e held
put-Joined f g f' g' b e rest held sf sg next l some r c =
    let far : (u : ℕ) → has u rest ≡ true → (u == b) ≡ false =
      λ u i. let k = Rising-above f (b + f' b) u rest r i in ground (arith, k, some) in
    record {
      rest = rest;
      linked = (next, Linked-frame g g' rest e (λ u i. sg u (far u i)) l);
      rising = (omega arith, some, Rising-frame f f' (b + f' b) rest (λ u i. sf u (far u i)) r);
      covering = λ q.
          ap (λ (k : Bool). in_range b (f' b) q || k)
            (covers-frame f f' rest q (λ u i. sf u (far u i)))
          ∙ c q;
      units_below = λ u k. sf u (ground (arith, k));
      next_below = λ u k. sg u (ground (arith, k));
    }

-- `join_next` where the blocks `zs` lie behind `b`.
pub join_next-Joined :
    (cur b e : ℕ) (h : Slob) (zs : List ℕ)
    → h.next cur ≡ first zs e
    → Linked h.next zs e
    → Rising h.units (b + h.units b) zs
    → 0 < h.units b
    → e < b
    → Joined h.units h.next
        (join_next b cur h).units
        (join_next b cur h).next
        b
        e
        (λ q. in_range b (h.units b) q || covers h.units zs q)
unfolding join_next
join_next-Joined cur b e h [] c l r some low =
    let apart : (b + h.units b == h.next cur) ≡ false = ground (arith, c) in
    rw apart (
      put-Joined h.units h.next h.units (update h.next b (h.next cur)) b e []
        (λ q. in_range b (h.units b) q || false) (λ u k. refl) (λ u k. rw k refl)
        (ground (arith, c)) tt some tt (λ q. refl))
join_next-Joined cur b e h (z ∷ zs) c l r some low =
    let held = λ (q : ℕ). in_range b (h.units b) q || covers h.units (z ∷ zs) q in
    elim (Bool-cases (b + h.units b == h.next cur)) [
      | inl t ↦
          let len = h.units b + h.units (h.next cur) in
          let at : z ≡ b + h.units b = ground (arith, c, t) in
          let size : b + len ≡ z + h.units z = rw c (omega (arith, at)) in
          rw t (
            put-Joined h.units h.next (update h.units b len) (update h.next b (h.next (h.next cur)))
              b e zs held (λ u k. rw k refl) (λ u k. rw k refl) (ground (arith, c, l.0)) l.1
              (rw (update-same h.units b len) (ground (arith, some)))
              (rw (update-same h.units b len, size) r.2)
              (λ q.
                rw (update-same h.units b len, c)
                  (range-join b (h.units b) z (h.units z) q (covers h.units zs q) at)))
      | inr t ↦ rw t (
          put-Joined h.units h.next h.units (update h.next b (h.next cur)) b e (z ∷ zs) held
            (λ u k. refl) (λ u k. rw k refl) (ground (arith, c)) l some r (λ q. refl))
    ]

-- `join_prev` where `b` and the blocks `rest` lie behind `n`.
pub join_prev-Joined :
    (n b e : ℕ) (h : Slob) (rest : List ℕ)
    → Linked h.next (b ∷ rest) e
    → Rising h.units b (b ∷ rest)
    → n + h.units n ≤ b
    → 0 < h.units n
    → Joined h.units h.next
        (join_prev b n h).units
        (join_prev b n h).next
        n
        e
        (λ q. in_range n (h.units n) q || covers h.units (b ∷ rest) q)
unfolding join_prev
join_prev-Joined n b e h rest l r above some =
    let held = λ (q : ℕ). in_range n (h.units n) q || covers h.units (b ∷ rest) q in
    elim (Bool-cases (n + h.units n == b)) [
      | inl t ↦
          let len = h.units n + h.units b in
          let at : b ≡ n + h.units n = ground (arith, t) in
          let size : n + len ≡ b + h.units b = omega (arith, at) in
          rw t (
            put-Joined h.units h.next (update h.units n len) (update h.next n (h.next b)) n e rest
              held (λ u k. rw k refl) (λ u k. rw k refl) (ground (arith, l.0)) l.1
              (rw (update-same h.units n len) (ground (arith, some)))
              (rw (update-same h.units n len, size) r.2)
              (λ q.
                rw (update-same h.units n len)
                  (range-join n (h.units n) b (h.units b) q (covers h.units rest q) at)))
      | inr t ↦ rw t (
          put-Joined h.units h.next h.units (update h.next n b) n e (b ∷ rest) held (λ u k. refl)
            (λ u k. rw k refl) (ground arith) l some (omega arith, r.1, r.2) (λ q. refl))
    ]
