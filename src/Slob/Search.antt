-- ===== src/Slob/Search.antt =====
-- The loop of `slob_alloc` of kern/mm/kmalloc.c without alignment: the search for a block with room.
use os_lab.Base.{
  ℕ, zero, suc, ◌+◌, ◌<◌, ◌≤◌, ◌≡◌, ◌⊎◌, refl, sym, ◌∙◌, subst, Bool, true, false, List, [], ◌∷◌,
  ◌++◌, has, ◌==◌, ◌||◌, leb, Bool-cases, ==_iff, inl, inr, length, ok, arith,
}
use os_lab.Slob.{Slob, take_units, take_block, search_units, slob_units, get_free_pages, page_size}
use os_lab.Slob.Circle.{first, Linked}
use os_lab.Slob.Free.{first-append}

only : (m c : ℕ) → has m (c ∷ []) ≡ true → m ≡ c
only m c i = ground (arith, i)

room : (a b : ℕ) → leb a b ≡ true → a ≤ b
room a b e = ground (arith, e)

less_of : (a b : ℕ) → leb a b ≡ false → b < a
less_of a b e = ground (arith, e)

-- What the search comes to: a block `x` with room behind `p`, or none among `l`, where NULL is
-- returned if there are no more pages.
pub record Found (fuel size prev cur : ℕ) (h : Slob) (l : List ℕ) : Type 0 where
  pub p : ℕ
  pub x : ℕ
  pub run : search_units fuel size 0 prev cur h ≡ ok (take_units (slob_units size) p x h)
  pub member : has p (prev ∷ l) ≡ true
  pub next : h.next p ≡ x
  pub fits : slob_units size ≤ h.units x

abbrev pub Searches : (fuel size prev cur : ℕ) (h : Slob) (l : List ℕ) → Type 0
Searches fuel size prev cur h l =
    Found fuel size prev cur h l
    ⊎ (((m : ℕ) → has m l ≡ true → h.units m < slob_units size)
        × (h.pages ≡ [] → search_units fuel size 0 prev cur h ≡ ok (0, h)))

same_test : (a : ℕ) → (a == a) ≡ true
same_test a = ground arith

plus_zero : (a : ℕ) → a + 0 ≡ a
plus_zero a = omega arith

get_free_pages-none : (h : Slob) → h.pages ≡ [] → get_free_pages h ≡ (0, h)
unfolding get_free_pages
get_free_pages-none h z = rw z refl

search-step_fits :
    (fuel size prev cur : ℕ) (h : Slob)
    → leb (slob_units size) (h.units cur) ≡ true
    → search_units (suc fuel) size 0 prev cur h ≡ ok (take_units (slob_units size) prev cur h)
unfolding search_units take_block
search-step_fits fuel size prev cur h e = rw (plus_zero (slob_units size), e) refl

search-step_on :
    (fuel size prev cur : ℕ) (h : Slob)
    → leb (slob_units size) (h.units cur) ≡ false
    → (cur == h.slobfree) ≡ false
    → search_units (suc fuel) size 0 prev cur h ≡ search_units fuel size 0 cur (h.next cur) h
unfolding search_units
search-step_on fuel size prev cur h e n = rw (plus_zero (slob_units size), e, n) refl

search-step_none :
    (fuel size prev cur : ℕ) (h : Slob)
    → leb (slob_units size) (h.units cur) ≡ false
    → (cur == h.slobfree) ≡ true
    → h.pages ≡ []
    → search_units (suc fuel) size 0 prev cur h ≡ ok (0, h)
unfolding search_units
search-step_none fuel size prev cur h e n z = elim (Bool-cases (size == page_size)) [
  | inl p ↦ rw (plus_zero (slob_units size), e, n, p) refl
  | inr p ↦ rw (plus_zero (slob_units size), e, n, p, get_free_pages-none h z) refl
]

abbrev pub ends : List ℕ → ℕ → List ℕ
ends ys c = ys ++ c ∷ []

head_in : (a : ℕ) (l : List ℕ) → has a (a ∷ l) ≡ true
head_in a l = ground arith

swap : (c y : ℕ) (b : Bool) → ((c == y) || b) ≡ false → (y == c) ≡ false
swap c y b e = ground (arith, e)

others : (c y : ℕ) (b : Bool) → ((c == y) || b) ≡ false → b ≡ false
others c y b e = ground (arith, e)

later : (a b : Bool) → (a || b) ≡ true → a ≡ false → b ≡ true
later a b e n = ground (arith, e, n)

deeper :
    (p prev cur y : ℕ) (l : List ℕ) → cur ≡ y → has p (cur ∷ l) ≡ true → has p (prev ∷ y ∷ l) ≡ true
deeper p prev cur y l e i = ground (arith, e, i)

-- The search from `prev` on, round to `slobfree`.
pub search-Searches :
    (fuel size prev cur e : ℕ) (h : Slob) (ys : List ℕ)
    → Linked h.next (prev ∷ ends ys h.slobfree) e
    → cur ≡ first ys h.slobfree
    → has h.slobfree ys ≡ false
    → length ys < fuel
    → Searches fuel size prev cur h (ends ys h.slobfree)
search-Searches zero size prev cur e h ys l k d f = absurd (omega (arith, f))
search-Searches (suc fuel) size prev cur e h [] l k d f =
    elim (Bool-cases (leb (slob_units size) (h.units cur))) [
      | inl t ↦ inl (record {
        p = prev;
        x = cur;
        run = search-step_fits fuel size prev cur h t;
        member = head_in prev (ends [] h.slobfree);
        next = l.0 ∙ sym k;
        fits = room (slob_units size) (h.units cur) t;
      })
      | inr t ↦ inr (
        (λ m i.
            let at : m ≡ cur = only m h.slobfree i ∙ sym k in
            rw at (less_of (slob_units size) (h.units cur) t)),
        (λ z. search-step_none fuel size prev cur h t (rw k (same_test h.slobfree)) z),
      )
    ]
search-Searches (suc fuel) size prev cur e h (y ∷ ys) l k d f =
    elim (Bool-cases (leb (slob_units size) (h.units cur))) [
      | inl t ↦ inl (record {
        p = prev;
        x = cur;
        run = search-step_fits fuel size prev cur h t;
        member = head_in prev (ends (y ∷ ys) h.slobfree);
        next = l.0 ∙ sym k;
        fits = room (slob_units size) (h.units cur) t;
      })
      | inr t ↦
          let c = h.slobfree in
          let on = search-step_on fuel size prev cur h t (rw k (swap c y (has c ys) d)) in
          let l' : Linked h.next (cur ∷ ends ys c) e =
            subst (λ (z : ℕ). Linked h.next (z ∷ ends ys c) e) (sym k) l.1 in
          let rest =
            search-Searches fuel size cur (h.next cur) e h ys l' (l'.0 ∙ first-append ys [] c e e)
              (others c y (has c ys) d) (omega (arith, f)) in
          elim rest [
            | inl r ↦ inl (record {
              p = r.p;
              x = r.x;
              run = on ∙ r.run;
              member = deeper r.p prev cur y (ends ys c) k r.member;
              next = r.next;
              fits = r.fits;
            })
            | inr (small, none) ↦ inr (
              (λ m i. elim (Bool-cases (m == y)) [
                | inl q ↦
                    let at : m ≡ cur = (==_iff m y).0 q ∙ sym k in
                    rw at (less_of (slob_units size) (h.units cur) t)
                | inr q ↦ small m (later (m == y) (has m (ends ys c)) i q)
              ]),
              (λ z. on ∙ none z),
            )
          ]
    ]
