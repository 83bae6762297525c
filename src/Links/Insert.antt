-- ===== src/Links/Insert.antt =====
-- `__list_add` between two neighbours of a chain puts the new entry there.
use os_lab.Base.{ℕ, ◌≡◌, ◌≢◌, true, false, List, [], ◌∷◌, ◌++◌, arith, has, has-append, Distinct}
use os_lab.Links.{Links, list_add_between}
use os_lab.Links.Chain.{Chain, Chain-frame, first, last, has-last, has-first, ne_of_has}

module _ (h : Links) where
  insert_here :
      (a b e : ℕ) (ys : List ℕ)
      → Chain h a ys b
      → Distinct (a ∷ ys)
      → Distinct (ys ++ b ∷ [])
      → has e (a ∷ ys) ≡ false
      → e ≢ b
      → Chain (list_add_between e a (first ys b) h) a (e ∷ ys) b
  unfolding list_add_between
  insert_here a b e [] c d t o n = ground arith
  insert_here a b e (y ∷ ys) c d t o n = (
    ground arith,
    (
      ground arith,
      Chain-frame y b ys c.1 (λ u i. ground (arith, ne_of_has u e (y ∷ ys), ne_of_has u a (y ∷ ys)))
          (λ v i. ground (
            arith,
            has-append e ys (b ∷ []),
            ne_of_has v e (ys ++ b ∷ []),
            ne_of_has v y (ys ++ b ∷ []),
          )),
    ),
  )

  pub Chain-insert :
      (a b e : ℕ) (xs ys : List ℕ)
      → Chain h a (xs ++ ys) b
      → Distinct (a ∷ xs ++ ys)
      → Distinct ((xs ++ ys) ++ b ∷ [])
      → has e (a ∷ xs ++ ys) ≡ false
      → e ≢ b
      → Chain (list_add_between e (last a xs) (first ys b) h) a (xs ++ e ∷ ys) b
  unfolding list_add_between
  Chain-insert a b e [] ys c d t o n = insert_here a b e ys c d t o n
  Chain-insert a b e (x ∷ xs) ys c d t o n =
      let p = last x xs in
      let q = first ys b in
      let p_in : has p (x ∷ xs) ≡ true = has-last x xs in
      let q_in : has q (ys ++ b ∷ []) ≡ true = has-first ys b in
      (
        ground (
          arith,
          has-append a xs ys,
          has-append e xs ys,
          has-append x (xs ++ ys) (b ∷ []),
          has-append x xs ys,
          has-append x ys (b ∷ []),
          ne_of_has p a (x ∷ xs),
          ne_of_has q x (ys ++ b ∷ []),
        ),
        Chain-insert x b e xs ys c.1 d.1 t.1 (ground arith) n,
      )
