-- ===== src/Pmm/Behind.antt =====
-- `default_free_pages` of kern/mm/default_pmm.c for a block behind all free blocks: its loop goes on
-- after it has added the block, and adds it a second time behind itself.
use mathlib.Core.List.{append-nil}
use os_lab.Base.{
  ℕ, ◌+◌, ◌≤◌, ◌<◌, ◌^◌, ◌≡◌, ◌≢◌, refl, ap, ◌∙◌, true, false, List, [], ◌∷◌, map, ◌==◌, length,
  arith, ok,
}
use os_lab.Links.{Links, list_empty, list_add, list_del}
use os_lab.Links.Chain.{Ring, last}
use os_lab.Links.Ring.{Chain-cut}
use os_lab.Pmm.{
  Pmm, page_link, free_list, add_block, insert_block, merge_prev, merge_next, merge_both,
  default_free_pages, set_page_property,
}
use os_lab.Pmm.Blocks.{in_range, FreeList}
use os_lab.Pmm.Place.{AllLt, insert_loop-last}
use os_lab.Pmm.Free.{IsUsed, reset_pages-ok, add_block-links}

-- An entry that is added behind `p` and then behind itself.
abbrev twice_added : ℕ → ℕ → Links → Links
twice_added p e h = list_add e e (list_add p e h)

twice_added-prev : (p e : ℕ) (h : Links) → (twice_added p e h).prev e ≡ e
unfolding list_add
twice_added-prev p e h = ground arith

twice_added-next : (p e : ℕ) (h : Links) → (twice_added p e h).next e ≡ h.next p
unfolding list_add
twice_added-next p e h = ground arith

-- `list_del` does not take such an entry out: what stands in front still leads to it.
twice_added-stays : (p e : ℕ) (h : Links) → e ≢ p → (list_del e (twice_added p e h)).next p ≡ e
unfolding list_add list_del
twice_added-stays p e h n = ground arith

last-below :
    (base w : ℕ) (ws : List ℕ)
    → AllLt base (w ∷ ws)
    → last (page_link w) (map page_link ws) < page_link base
last-below base w [] a = omega (arith, a.0)
last-below base w (v ∷ ws) a = last-below base v ws a.1

insert_block-behind :
    (fuel base w : ℕ) (h : Links) (ws : List ℕ)
    → Ring h free_list (map page_link (w ∷ ws))
    → AllLt base (w ∷ ws)
    → length ws + 3 ≤ fuel
    → insert_block fuel base h
      ≡ ok (twice_added (last (page_link w) (map page_link ws)) (page_link base) h)
unfolding insert_block list_empty
insert_block-behind fuel base w h ws r a f =
    let filled : (h.next free_list == free_list) ≡ false = ground (arith, r.chain.0.0) in
    rw filled (insert_loop-last fuel base free_list w h ws r.chain a f)

merge_both-behind :
    (base : ℕ) (s : Pmm)
    → 0 < (s.page base).property
    → s.links.prev (page_link base) ≡ page_link base
    → s.links.next (page_link base) ≡ free_list
    → merge_both base s ≡ s
unfolding merge_both merge_prev merge_next
merge_both-behind base s p a b =
    let head : (page_link base == free_list) ≡ false = ground arith in
    let apart : (base + (s.page base).property == base) ≡ false = ground arith in
    rw (a, head, apart, b) refl

add_block-property :
    (base n : ℕ) (s : Pmm) → 0 < n → n < 2 ^ 32 → 0 < ((add_block base n s).page base).property
unfolding add_block set_page_property
add_block-property base n s p l = ground arith

-- `n` pages that are neither reserved nor the head of a free block are given back, and every block of
-- the list, which is not empty, begins below them. With fuel for three rounds more than the blocks
-- behind the first one `default_free_pages` returns, and leaves the new block's entry with a `prev`
-- that points at itself. When `list_del` then takes this entry out, as the next allocation of the
-- block does, the `next` of the last of the other blocks still points at it: the block is handed
-- out and stays in the free list.
pub default_free_pages-behind :
    (fuel base n w : ℕ) (s : Pmm) (ws : List ℕ)
    → 0 < n
    → n < 2 ^ 32
    → FreeList s (w ∷ ws)
    → ((q : ℕ) → in_range base n q ≡ true → IsUsed (s.page q))
    → AllLt base (w ∷ ws)
    → length ws + 3 ≤ fuel
    → (t : Pmm) × (default_free_pages fuel base n s ≡ ok t)
      × (t.links.prev (page_link base) ≡ page_link base)
      × ((list_del (page_link base) t.links).next (last (page_link w) (map page_link ws))
          ≡ page_link base)
unfolding default_free_pages
default_free_pages-behind fuel base n w s ws p small l used a f =
    let e = page_link base in
    let tail = last (page_link w) (map page_link ws) in
    let (pg, reset, same) = reset_pages-ok base n s.page used in
    let t = add_block base n (record s { page = pg }) in
    let u = record t { links = twice_added tail e s.links } in
    let end : s.links.next tail ≡ free_list =
      (Chain-cut s.links free_list free_list (map page_link (w ∷ ws)) []
        (rw append-nil l.ring.chain)).0 in
    let merged =
      merge_both-behind base u (add_block-property base n (record s { page = pg }) p small)
        (twice_added-prev tail e s.links) (twice_added-next tail e s.links ∙ end) in
    let pos' : (n == 0) ≡ false = ground arith in
    (
      u,
      rw (pos', reset)
          (rw (add_block-links base n s pg, insert_block-behind fuel base w s.links ws l.ring a f)
            (ap (λ (k : Pmm). ok k) merged)),
      twice_added-prev tail e s.links,
      twice_added-stays tail e s.links (omega (arith, last-below base w ws a)),
    )
