-- ===== src/Links/Remove.antt =====
-- `__list_del` of the two neighbours of an entry takes it out of the chain.
use os_lab.Base.{ℕ, ◌≡◌, true, List, [], ◌∷◌, ◌++◌, arith, has, has-append, Distinct}
use os_lab.Links.{Links, list_del_between}
use os_lab.Links.Chain.{Chain, Chain-frame, first, last, has-last, has-first, ne_of_has}

module _ (h : Links) where
  remove_here :
      (a b e : ℕ) (ys : List ℕ)
      → Chain h a (e ∷ ys) b
      → Distinct (a ∷ e ∷ ys)
      → Distinct (e ∷ ys ++ b ∷ [])
      → Chain (list_del_between a (first ys b) h) a ys b
  unfolding list_del_between
  remove_here a b e [] c d t = ground arith
  remove_here a b e (y ∷ ys) c d t = (
    ground arith,
    Chain-frame y b ys c.1.1 (λ u i. ground (arith, ne_of_has u a (y ∷ ys)))
        (λ v i. ground (arith, ne_of_has v y (ys ++ b ∷ []))),
  )

  pub Chain-remove :
      (a b e : ℕ) (xs ys : List ℕ)
      → Chain h a (xs ++ e ∷ ys) b
      → Distinct (a ∷ xs ++ e ∷ ys)
      → Distinct ((xs ++ e ∷ ys) ++ b ∷ [])
      → Chain (list_del_between (last a xs) (first ys b) h) a (xs ++ ys) b
  unfolding list_del_between
  Chain-remove a b e [] ys c d t = remove_here a b e ys c d t
  Chain-remove a b e (x ∷ xs) ys c d t =
      let p = last x xs in
      let q = first ys b in
      let p_in : has p (x ∷ xs) ≡ true = has-last x xs in
      let q_in : has q (ys ++ b ∷ []) ≡ true = has-first ys b in
      (
        ground (
          arith,
          has-append a xs (e ∷ ys),
          has-append x (xs ++ e ∷ ys) (b ∷ []),
          has-append x xs (e ∷ ys),
          has-append x ys (b ∷ []),
          ne_of_has p a (x ∷ xs),
          ne_of_has q x (ys ++ b ∷ []),
        ),
        Chain-remove x b e xs ys c.1 d.1 t.1,
      )
