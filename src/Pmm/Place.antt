-- ===== src/Pmm/Place.antt =====
-- The loop of kern/mm/default_pmm.c that looks for the place of a block in the free list.
use os_lab.Base.{
  ℕ, zero, suc, ◌+◌, ◌≤◌, ◌<◌, ◌≡◌, ◌≢◌, ◌∙◌, List, [], ◌∷◌, ◌++◌, map, arith, length, ok,
}
use os_lab.Links.{Links, list_add, list_add_before}
use os_lab.Links.Chain.{Chain, last}
use os_lab.Pmm.{free_list, page_link, insert_loop}

-- All entries lie below `b`.
abbrev pub AllLt : ℕ → List ℕ → Type 0
AllLt b [] = Unit
AllLt b (x ∷ xs) = (x < b) × AllLt b xs

-- Some block lies above: the new entry goes in front of the first such.
pub insert_loop-before :
    (fuel base le z : ℕ) (h : Links) (ws zs : List ℕ)
    → Chain h le (map page_link (ws ++ z ∷ zs)) free_list
    → AllLt base ws
    → base < z
    → length ws + 1 < fuel
    → insert_loop fuel base le h ≡ ok (list_add_before (page_link z) (page_link base) h)
unfolding insert_loop
insert_loop-before zero base le z h ws zs c a l f = absurd (omega arith)
insert_loop-before (suc fuel) base le z h [] zs c a l f = ground arith
insert_loop-before (suc fuel) base le z h (w ∷ []) zs c a l f =
    ground (arith, insert_loop-before fuel base (suc w) z h [] zs c.1 tt l)
insert_loop-before (suc fuel) base le z h (w ∷ v ∷ ws) zs c a l f =
    ground (arith, insert_loop-before fuel base (suc w) z h (v ∷ ws) zs c.1 a.1 l)

-- The loop at the end of the list returns.
insert_loop-end :
    (fuel base le : ℕ) (h : Links) → h.next le ≡ free_list → insert_loop (suc fuel) base le h ≡ ok h
unfolding insert_loop
insert_loop-end fuel base le h e = ground arith

-- A round behind the last block `w`.
insert_loop-behind :
    (fuel base le w : ℕ) (h : Links)
    → h.next le ≡ page_link w
    → h.next (page_link w) ≡ free_list
    → w ≤ base
    → insert_loop (suc fuel) base le h
      ≡ insert_loop fuel base (page_link w) (list_add (page_link w) (page_link base) h)
unfolding insert_loop
insert_loop-behind fuel base le w h e n l = ground arith

-- A round at a block `w` below `base` that is not the last one.
insert_loop-on :
    (fuel base le w v : ℕ) (h : Links)
    → h.next le ≡ page_link w
    → h.next (page_link w) ≡ page_link v
    → w ≤ base
    → insert_loop (suc fuel) base le h ≡ insert_loop fuel base (page_link w) h
unfolding insert_loop
insert_loop-on fuel base le w v h e n l = ground arith

-- Adding an entry behind `p` makes it the next one, and leaves what stood behind `p` behind it.
list_add-next : (p e : ℕ) (h : Links) → e ≢ p → (list_add p e h).next p ≡ e
unfolding list_add
list_add-next p e h n = ground arith

list_add-next_new : (p e : ℕ) (h : Links) → (list_add p e h).next e ≡ h.next p
unfolding list_add
list_add-next_new p e h = ground arith

-- All blocks lie below: the new entry is added behind the last one, and then behind itself.
pub insert_loop-last :
    (fuel base le w : ℕ) (h : Links) (ws : List ℕ)
    → Chain h le (map page_link (w ∷ ws)) free_list
    → AllLt base (w ∷ ws)
    → length ws + 3 ≤ fuel
    → insert_loop fuel base le h
      ≡ ok (
          list_add
            (page_link base)
            (page_link base)
            (list_add (last (page_link w) (map page_link ws)) (page_link base) h))
insert_loop-last zero base le w h ws c a f = absurd (omega arith)
insert_loop-last (suc zero) base le w h ws c a f = absurd (omega arith)
insert_loop-last (suc (suc zero)) base le w h ws c a f = absurd (omega arith)
insert_loop-last (suc (suc (suc fuel))) base le w h [] c a f =
    let e = page_link base in
    let g = list_add (page_link w) e h in
    let tail : g.next e ≡ free_list = list_add-next_new (page_link w) e h ∙ c.1.0 in
    insert_loop-behind (suc (suc fuel)) base le w h c.0.0 c.1.0 (omega (arith, a.0))
    ∙ insert_loop-behind (suc fuel) base (page_link w) base g
        (list_add-next (page_link w) e h (omega (arith, a.0))) tail (omega arith)
    ∙ insert_loop-end fuel base e (list_add e e g) (list_add-next_new e e g ∙ tail)
insert_loop-last (suc (suc (suc fuel))) base le w h (v ∷ ws) c a f =
    insert_loop-on (suc (suc fuel)) base le w v h c.0.0 c.1.0.0 (omega (arith, a.0))
    ∙ insert_loop-last (suc (suc fuel)) base (page_link w) v h ws c.1 a.1 (omega (arith, f))
