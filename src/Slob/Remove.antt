-- ===== src/Slob/Remove.antt =====
-- The end of `slob_alloc` of kern/mm/kmalloc.c: units are taken from a block with room.
use os_lab.Base.{
  ℕ, ◌+◌, ◌<◌, ◌≤◌, ◌≡◌, refl, sym, ap, ◌∙◌, subst, Bool, true, false, List, ◌∷◌, ◌++◌, has,
  has-append, ◌==◌, ◌&&◌, ◌||◌, Bool-cases, ==_iff, inl, inr, arith,
}
use os_lab.Pmm.Blocks.{in_range}
use os_lab.Slob.{Slob, set_next, take_units}
use os_lab.Slob.Circle.{
  first, Linked, Rising, covers, Circle, Linked-frame, covers-frame, update-same,
}
use os_lab.Slob.Free.{
  Linked-append, append-Linked, first-append, Rising-swap, Rising-front, Rising-back, covers-append,
}
use os_lab.Slob.Take.{
  Takes, Tail, covers-front, update-other, differ_gt, take_all, take_part, cut, after_prev,
}

shuffle : (a b c : Bool) → (a || (b || c)) ≡ ((a || b) || c)
shuffle true b c = refl
shuffle false b c = refl

front-apart :
    (f k : Bool) (prev cur len q : ℕ)
    → prev < cur
    → (prev ≤ q → f ≡ false)
    → (k && in_range cur len q) ≡ false
    → ((f || k) && in_range cur len q) ≡ false
front-apart true k prev cur len q l p e = ground (arith, l, p)
front-apart false k prev cur len q l p e = e

strictly : (a b : ℕ) → (a == b) ≡ false → b ≤ a → b < a
strictly a b e l = ground (arith, e, l)

Tail-Takes :
    (h t : Slob) (xs front back : List ℕ) (prev cur len : ℕ)
    → Circle h xs
    → xs ≡ front ++ prev ∷ cur ∷ back
    → t.slobfree ≡ prev
    → prev < cur
    → Tail h t prev cur len (first xs 0) back
    → Takes h t xs cur len
Tail-Takes h t xs front back prev cur len c split free less k =
    let l =
      Linked-append h.next front (prev ∷ cur ∷ back) (first xs 0)
        (subst (λ (z : List ℕ). Linked h.next z (first xs 0)) split c.linked) in
    let r = subst (Rising h.units 0) split c.rising in
    let ys = front ++ prev ∷ k.rest in
    let same_first : first ys 0 ≡ first xs 0 =
      first-append front k.rest prev 0 0
      ∙ sym (ap (λ (z : List ℕ). first z 0) split ∙ first-append front (cur ∷ back) prev 0 0) in
    let in_front : (u : ℕ) → has u front ≡ true → u < prev =
      λ u i. Rising-front h.units 0 prev u front (cur ∷ back) r i in
    let same_front : (q : ℕ) → covers t.units front q ≡ covers h.units front q =
      λ q. covers-frame h.units t.units front q (λ u i. k.units_below u (in_front u i)) in
    record {
      after = ys;
      valid = record {
        linked = rw same_first (
            append-Linked t.next front (prev ∷ k.rest) (first xs 0)
              (Linked-frame h.next t.next front prev (λ u i. k.next_below u (in_front u i)) l.0)
              k.linked);
        rising =
            Rising-swap h.units t.units 0 prev front (cur ∷ back) k.rest r k.units_below k.rising;
        member = rw free (ground (arith, has-append prev front (prev ∷ k.rest)));
      };
      lowest = same_first;
      covering = λ q.
          let whole =
            ap (λ (z : List ℕ). covers h.units z q) split
            ∙ covers-append h.units front (prev ∷ cur ∷ back) q in
          whole
          ∙ rw (k.covering q, covers-append t.units front (prev ∷ k.rest) q, same_front q)
              (shuffle (covers h.units front q) (covers t.units (prev ∷ k.rest) q)
                (in_range cur len q));
      apart = λ q.
          rw (covers-append t.units front (prev ∷ k.rest) q, same_front q)
            (front-apart (covers h.units front q) (covers t.units (prev ∷ k.rest) q) prev cur len q
              less (λ m. covers-front h.units 0 prev q front (cur ∷ back) r m) (k.apart q));
      size = k.size;
    }

-- Taking from a block that has room.
pub take_units-Takes :
    (h : Slob) (xs front back : List ℕ) (prev cur len : ℕ)
    → Circle h xs
    → xs ≡ front ++ prev ∷ cur ∷ back
    → 0 < len
    → len ≤ h.units cur
    → (t : Slob) × (take_units len prev cur h ≡ (cur, t)) × Takes h t xs cur len
unfolding take_units
take_units-Takes h xs front back prev cur len c split some fits =
    let l =
      (Linked-append h.next front (prev ∷ cur ∷ back) (first xs 0)
        (subst (λ (z : List ℕ). Linked h.next z (first xs 0)) split c.linked)).1 in
    let r =
      Rising-back h.units 0 prev front (cur ∷ back) (subst (Rising h.units 0) split c.rising) in
    let e = first xs 0 in
    let less = after_prev prev cur len e h back l r some fits in
    elim (Bool-cases (h.units cur == len)) [
      | inl s ↦ (
        record (set_next prev (h.next cur) h) { slobfree = prev },
        rw s refl,
        Tail-Takes h (record (set_next prev (h.next cur) h) { slobfree = prev }) xs front back prev
            cur len c split refl less
            (take_all prev cur len e h back l r some fits ((==_iff (h.units cur) len).0 s)),
      )
      | inr s ↦ (
        cut prev cur len e h back l r some fits,
        rw
            (
              s,
              update-same h.next prev (cur + len),
              update-other h.next prev (cur + len) cur (differ_gt cur prev less),
            )
            refl,
        Tail-Takes h (cut prev cur len e h back l r some fits) xs front back prev cur len c split
            refl less
            (take_part prev cur len e h back l r some fits (strictly (h.units cur) len s fits)),
      )
    ]
