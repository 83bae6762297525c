-- ===== src/Pmm/Safety.antt =====
-- Any sequence of calls of `default_alloc_pages` and `default_free_pages` of kern/mm/default_pmm.c.
use os_lab.Base.{
  ℕ, zero, suc, ◌+◌, ◌<◌, ◌≤◌, ◌^◌, ◌≡◌, refl, sym, ap, ◌∙◌, subst, inl, inr, Bool, true, false,
  Option, none, some, List, [], ◌∷◌, ◌++◌, length, ok, ◌==◌, not, ◌&&◌, ◌||◌, ◌>>=◌, Bool-cases,
  bind-ok, value_or, arith,
}
use os_lab.Links.{update}
use os_lab.Pmm.{
  Page, Pmm, page_reserved, page_property, reset_pages, default_alloc_pages, default_free_pages,
  add_block, insert_block, merge_both,
}
use os_lab.Pmm.Blocks.{in_range, covered, total, Blocks, FreeList}
use os_lab.Pmm.Alloc.{Allocates, Gets, default_alloc_pages-Allocates}
use os_lab.Pmm.Free.{IsUsed, LastAbove, Frees, default_free_pages-Frees}

-- Calls that return, with the ranges of pages that their callers hold: those handed out and not yet
-- given back. A range that is given back does not lie behind all free blocks.
pub data Calls (fuel : ℕ) (start : Pmm) : Pmm → List (ℕ × ℕ) → Type 0 where
  begin : Calls fuel start start []
  refused :
      (n : ℕ) (s t : Pmm) (held : List (ℕ × ℕ))
      → Calls fuel start s held
      → s.nr_free + 1 < fuel
      → default_alloc_pages fuel n s ≡ ok (none, t)
      → Calls fuel start t held
  handed_out :
      (n x : ℕ) (s t : Pmm) (held : List (ℕ × ℕ))
      → Calls fuel start s held
      → s.nr_free + 1 < fuel
      → default_alloc_pages fuel n s ≡ ok (some x, t)
      → Calls fuel start t ((x, n) ∷ held)
  given_back :
      (n x : ℕ) (s t : Pmm) (front back held : List (ℕ × ℕ))
      → Calls fuel start s held
      → held ≡ front ++ (x, n) ∷ back
      → s.nr_free + 1 < fuel
      → ((xs : List ℕ) → FreeList s xs → LastAbove x xs)
      → default_free_pages fuel x n s ≡ ok t
      → Calls fuel start t (front ++ back)

abbrev pub one : Bool → ℕ
one true = 1
one false = 0

-- How many of the ranges page `q` is in.
abbrev pub holders : List (ℕ × ℕ) → ℕ → ℕ
holders [] q = 0
holders ((x, n) ∷ held) q = one (in_range x n q) + holders held q

abbrev pub held_pages : List (ℕ × ℕ) → ℕ
held_pages [] = 0
held_pages ((x, n) ∷ held) = n + held_pages held

-- Every page that was free at the start is free now or in exactly one range, and not both; no other
-- page is free or in a range.
pub record Shares (start : Pmm) (xs : List ℕ) (s : Pmm) (held : List (ℕ × ℕ)) : Type 0 where
  pub blocks : List ℕ
  pub valid : FreeList s blocks
  pub each :
      (q : ℕ) → one (covered s.page blocks q) + holders held q ≡ one (covered start.page xs q)
  pub count : s.nr_free + held_pages held ≡ start.nr_free

holders-mid :
    (x n q : ℕ) (front back : List (ℕ × ℕ))
    → holders (front ++ (x, n) ∷ back) q ≡ one (in_range x n q) + holders (front ++ back) q
holders-mid x n q [] back = refl
holders-mid x n q ((y, k) ∷ front) back =
    let rest = holders-mid x n q front back in omega (arith, rest)

held_pages-mid :
    (x n : ℕ) (front back : List (ℕ × ℕ))
    → held_pages (front ++ (x, n) ∷ back) ≡ n + held_pages (front ++ back)
held_pages-mid x n [] back = refl
held_pages-mid x n ((y, k) ∷ front) back =
    let rest = held_pages-mid x n front back in omega (arith, rest)

Blocks-length : (pg : ℕ → Page) (lo : ℕ) (xs : List ℕ) → Blocks pg lo xs → length xs ≤ total pg xs
unfolding total
Blocks-length pg lo [] b = omega arith
Blocks-length pg lo (x ∷ xs) b = omega (arith, b.1, Blocks-length pg (x + (pg x).property) xs b.3)

one_or : (a b : Bool) → (a && b) ≡ false → one (a || b) ≡ one a + one b
one_or true true e = absurd (cc)
one_or true false e = refl
one_or false b e = omega arith

one_zero : (b : Bool) → one b ≡ 0 → b ≡ false
one_zero true e = absurd (omega (arith, e))
one_zero false e = refl

one_bound : (b : Bool) → one b ≤ 1
one_bound true = omega arith
one_bound false = omega arith

reset_pages-IsUsed :
    (base n : ℕ) (pg pg' : ℕ → Page)
    → reset_pages base n pg ≡ ok pg'
    → (q : ℕ) → in_range base n q ≡ true
    → IsUsed (pg q)
unfolding reset_pages
reset_pages-IsUsed base zero pg pg' e q i = absurd (ground (arith, i))
reset_pages-IsUsed base (suc n) pg pg' e q i =
    let next = update pg base (record (pg base) { ref = 0; flags = 0 }) in
    elim (Bool-cases (not (page_reserved (pg base)) && not (page_property (pg base)))) [
      | inl used ↦ elim (Bool-cases (q == base)) [
        | inl here ↦
            let at : q ≡ base = ground arith in rw at (ground (arith, used), ground (arith, used))
        | inr other ↦
            let kept : next q ≡ pg q = ground (arith, other) in
            rw kept at (
              reset_pages-IsUsed (suc base) n next pg' (ground (arith, e, used)) q
                (ground (arith, i, other)))
      ]
      | inr bad ↦ absurd (ground (arith, e, bad))
    ]

alloc_positive :
    (fuel n : ℕ) (s : Pmm) (r : Option ℕ × Pmm) → default_alloc_pages fuel n s ≡ ok r → 0 < n
unfolding default_alloc_pages
alloc_positive fuel zero s r e = absurd (ground (arith, e))
alloc_positive fuel (suc n) s r e = omega arith

-- A range that is given back without a panic was in use.
free-IsUsed :
    (fuel x n : ℕ) (s t : Pmm)
    → default_free_pages fuel x n s ≡ ok t
    → (0 < n) × ((q : ℕ) → in_range x n q ≡ true → IsUsed (s.page q))
unfolding default_free_pages
free-IsUsed fuel x zero s t e = absurd (ground (arith, e))
free-IsUsed fuel x (suc n) s t e =
    let step = λ (pg : ℕ → Page).
      let u = add_block x (suc n) (record s { page = pg }) in
      insert_block fuel x u.links >>= λ h. ok (merge_both x (record u { links = h })) in
    let some_pages : (suc n == 0) ≡ false = ground arith in
    let (pg, run, e1) = bind-ok (reset_pages x (suc n) s.page) step t (rw some_pages at e) in
    (omega arith, reset_pages-IsUsed x (suc n) s.page pg run)

module _ (start : Pmm) (xs : List ℕ) where
  alloc-Shares :
      (fuel n : ℕ) (s t : Pmm) (r : Option ℕ) (held : List (ℕ × ℕ)) (h : Shares start xs s held)
      → s.nr_free + 1 < fuel
      → default_alloc_pages fuel n s ≡ ok (r, t)
      → Allocates s h.blocks n (r, t)
  alloc-Shares fuel n s t r held h f e =
      let size = Blocks-length s.page 0 h.blocks h.valid.blocks in
      let (o, run, a) =
        default_alloc_pages-Allocates fuel n s h.blocks (alloc_positive fuel n s (r, t) e) h.valid
          (omega (arith, size, h.valid.counted, f)) in
      subst (Allocates s h.blocks n) (ap (value_or o) (sym run ∙ e)) a

  handed_out-Shares :
      (n x : ℕ) (s t : Pmm) (held : List (ℕ × ℕ)) (h : Shares start xs s held)
      → Gets s t h.blocks n x
      → Shares start xs t ((x, n) ∷ held)
  handed_out-Shares n x s t held h g = record {
    blocks = g.after;
    valid = g.valid;
    each = λ q.
        let split : one (covered s.page h.blocks q)
            ≡ one (covered t.page g.after q) + one (in_range x n q) =
          rw (g.frees q) (one_or (covered t.page g.after q) (in_range x n q) (g.apart q)) in
        omega (arith, split, h.each q);
    count = omega (arith, g.count, h.count);
  }

  given_back-Shares :
      (fuel n x : ℕ) (s t : Pmm) (front back : List (ℕ × ℕ))
      → start.nr_free < 2 ^ 32
      → Shares start xs s (front ++ (x, n) ∷ back)
      → s.nr_free + 1 < fuel
      → ((ys : List ℕ) → FreeList s ys → LastAbove x ys)
      → default_free_pages fuel x n s ≡ ok t
      → Shares start xs t (front ++ back)
  given_back-Shares fuel n x s t front back small h f place e =
      let (pos, used) = free-IsUsed fuel x n s t e in
      let apart : (q : ℕ) → in_range x n q ≡ true → covered s.page h.blocks q ≡ false = λ q i.
        one_zero (covered s.page h.blocks q) (
          omega (
            arith,
            h.each q,
            holders-mid x n q front back,
            ap one i,
            one_bound (covered start.page xs q),
          )) in
      let size = Blocks-length s.page 0 h.blocks h.valid.blocks in
      let less = held_pages-mid x n front back in
      let (o, run, fr, _, _) =
        default_free_pages-Frees fuel x n s h.blocks pos h.valid used apart
          (omega (arith, h.count, less, small)) (place h.blocks h.valid)
          (omega (arith, size, h.valid.counted, f)) in
      let same : o ≡ t = ap (value_or o) (sym run ∙ e) in
      let fr' : Frees s t h.blocks x n = subst (λ (u : Pmm). Frees s u h.blocks x n) same fr in
      record {
        blocks = fr'.after;
        valid = fr'.valid;
        each = λ q.
            let split : one (covered t.page fr'.after q)
                ≡ one (covered s.page h.blocks q) + one (in_range x n q) =
              rw (fr'.frees q)
                (one_or (covered s.page h.blocks q) (in_range x n q) (ground (arith, apart q))) in
            omega (arith, split, h.each q, holders-mid x n q front back);
        count = omega (arith, fr'.count, h.count, less);
      }

-- From a state whose free list is well formed let any
-- sequence of calls of `default_alloc_pages` and `default_free_pages` return, each with fuel for two
-- rounds more than there are free pages, where only ranges that were handed out and not yet given
-- back are given back, none of them behind all free blocks. Then the free list is well formed, every
-- page that was free at the start is either free or in exactly one range that is held, no other page
-- is, and the counter is what the ranges that are held leave of it.
pub Calls-Shares :
    (fuel : ℕ) (start : Pmm) (xs : List ℕ) (s : Pmm) (held : List (ℕ × ℕ))
    → FreeList start xs
    → Calls fuel start s held
    → Shares start xs s held
Calls-Shares fuel start xs s held l begin = record {
  blocks = xs;
  valid = l;
  each = λ q. omega arith;
  count = omega arith;
}
Calls-Shares fuel start xs s held l (refused n r t held' c f e) =
    let h = Calls-Shares fuel start xs r held l c in
    let a = alloc-Shares start xs fuel n r s none held h f e in
    subst (λ (u : Pmm). Shares start xs u held) (sym a.0) h
Calls-Shares fuel start xs s held l (handed_out n x r t held' c f e) =
    let h = Calls-Shares fuel start xs r held' l c in
    handed_out-Shares start xs n x r s held' h
      (alloc-Shares start xs fuel n r s (some x) held' h f e)
Calls-Shares fuel start xs s held l (given_back n x r t front back held' c e f place run) =
    let h = Calls-Shares fuel start xs r held' l c in
    given_back-Shares start xs fuel n x r s front back l.small
      (subst (λ (k : List (ℕ × ℕ)). Shares start xs r k) e h) f place run
