-- ===== src/Links/Ring.antt =====
-- The operations of libs/list.h on a list that is known as a head and a sequence of entries:
-- what a client may use in place of the pointer code.
use os_lab.Base.{
  ℕ, ◌≡◌, ◌↔◌, refl, true, false, List, [], ◌∷◌, ◌++◌, arith, has, has-append, Distinct-snoc,
  Distinct-insert, Distinct-remove,
}
use os_lab.Links.{
  Links, list_init, list_add_after, list_add, list_add_before, list_add_between, list_del,
  list_empty,
}
use os_lab.Links.Chain.{Chain-frame, ne_of_has, Edge, Chain, Ring, first, last}
use os_lab.Links.Insert.{Chain-insert}
use os_lab.Links.Remove.{Chain-remove}

module _ (h : Links) where
  -- Across any cut of a chain the two sides point at one another.
  pub Chain-cut :
      (a b : ℕ) (xs ys : List ℕ) → Chain h a (xs ++ ys) b → Edge h (last a xs) (first ys b)
  Chain-cut a b [] [] c = c
  Chain-cut a b [] (y ∷ ys) c = c.0
  Chain-cut a b (x ∷ xs) ys c = Chain-cut x b xs ys c.1

  -- An entry of a chain points at what stands behind it.
  pub Chain-after :
      (a b e : ℕ) (xs ys : List ℕ) → Chain h a (xs ++ e ∷ ys) b → h.next e ≡ first ys b
  Chain-after a b e [] [] c = c.1.0
  Chain-after a b e [] (y ∷ ys) c = c.1.0.0
  Chain-after a b e (x ∷ xs) ys c = Chain-after x b e xs ys c.1

  pub list_init-Ring : (a : ℕ) → Ring (list_init a h) a []
  unfolding list_init
  list_init-Ring a = record { chain = ground arith; distinct = (refl, tt) }

  -- Initialising an entry that is not in a list leaves the list.
  pub list_init-frame :
      {a : ℕ} (e : ℕ) (xs : List ℕ)
      → Ring h a xs
      → has e (a ∷ xs) ≡ false
      → Ring (list_init e h) a xs
  unfolding list_init
  list_init-frame {a} e xs r new = record {
    chain =
        Chain-frame a a xs r.chain (λ u i. ground (arith, ne_of_has u e (a ∷ xs)))
          (λ v i. ground (arith, ne_of_has v e (xs ++ a ∷ []), has-append e xs (a ∷ [])));
    distinct = r.distinct;
  }

  pub list_empty_iff : {a : ℕ} (xs : List ℕ) → Ring h a xs → (list_empty a h ≡ true) ↔ (xs ≡ [])
  unfolding list_empty
  list_empty_iff [] r = (λ _. refl, λ _. ground (arith, r.chain.0))
  list_empty_iff (x ∷ xs) r = (λ e. ground (arith, r.chain.0.0, r.distinct.0), λ e. cc)

  module _ {a : ℕ} (e : ℕ) (xs ys : List ℕ) where
    insert_Ring :
        Ring h a (xs ++ ys)
        → has e (a ∷ xs ++ ys) ≡ false
        → Ring (list_add_between e (last a xs) (first ys a) h) a (xs ++ e ∷ ys)
    insert_Ring r o = record {
      chain =
          Chain-insert h a a e xs ys r.chain r.distinct (Distinct-snoc a (xs ++ ys) r.distinct) o
            (ground arith);
      distinct = (
        ground (arith, r.distinct.0, has-append a xs ys, has-append a xs (e ∷ ys)),
        Distinct-insert e xs ys r.distinct.1 (ground arith),
      );
    }

    -- `list_add_after` behind any entry of the list, or its head.
    pub list_add_after-Ring :
        Ring h a (xs ++ ys)
        → has e (a ∷ xs ++ ys) ≡ false
        → Ring (list_add_after (last a xs) e h) a (xs ++ e ∷ ys)
    unfolding list_add_after
    list_add_after-Ring r o = rw (Chain-cut a a xs ys r.chain).0 (insert_Ring r o)

    pub list_add-Ring :
        Ring h a (xs ++ ys)
        → has e (a ∷ xs ++ ys) ≡ false
        → Ring (list_add (last a xs) e h) a (xs ++ e ∷ ys)
    unfolding list_add
    list_add-Ring r o = list_add_after-Ring r o

    -- `list_add_before` in front of any entry of the list, or its head.
    pub list_add_before-Ring :
        Ring h a (xs ++ ys)
        → has e (a ∷ xs ++ ys) ≡ false
        → Ring (list_add_before (first ys a) e h) a (xs ++ e ∷ ys)
    unfolding list_add_before
    list_add_before-Ring r o = rw (Chain-cut a a xs ys r.chain).1 (insert_Ring r o)

    -- `list_del` of an entry leaves the others in their order.
    pub list_del-Ring : Ring h a (xs ++ e ∷ ys) → Ring (list_del e h) a (xs ++ ys)
    unfolding list_del
    list_del-Ring r =
        rw ((Chain-cut a a xs (e ∷ ys) r.chain).1, Chain-after a a e xs ys r.chain)
          (record {
            chain =
                Chain-remove h a a e xs ys r.chain r.distinct
                  (Distinct-snoc a (xs ++ e ∷ ys) r.distinct);
            distinct = (
              ground (arith, r.distinct.0, has-append a xs ys, has-append a xs (e ∷ ys)),
              (Distinct-remove e xs ys r.distinct.1).0,
            );
          })
