-- ===== src/Slob/Big.antt =====
-- The big blocks of kern/mm/kmalloc.c, from their allocation to kfree and ksize.
use os_lab.Base.{ℕ, ◌*◌, ◌^◌, ◌<◌, ◌≡◌, ◌≢◌, List, ◌∷◌, some, ap, true, false, ok, arith, ◌==◌}
use os_lab.Slob.{
  Slob, big_alloc, kfree, ksize, slob_free, is_page_aligned, get_free_pages, bigblock_size,
  page_size, unlink,
}
use os_lab.Slob.Order.{HasOrder, find_order-lem}

-- The store after a big block was taken.
abbrev with_block : ℕ → ℕ → ℕ → List ℕ → Slob → Slob
with_block bb k p ps h = record h {
  bigblocks = record { block = bb; order = k; pages = p } ∷ h.bigblocks;
  pages = ps;
}

is_zero : (p : ℕ) → p ≢ 0 → (p == 0) ≡ false
is_zero p z = ground arith

==-self : (p : ℕ) → (p == p) ≡ true
==-self p = ground arith

big_alloc-takes :
    (fuel size k bb p : ℕ) (ps : List ℕ) (h : Slob)
    → k < fuel
    → size < 2 ^ 31
    → HasOrder k size
    → p ≢ 0
    → h.pages ≡ p ∷ ps
    → big_alloc fuel size bb h ≡ ok (p, with_block bb k p ps h)
unfolding big_alloc get_free_pages
big_alloc-takes fuel size k bb p ps h f b o z e =
    rw (find_order-lem fuel k size f b o, e, is_zero p z)

unlink-with_block :
    (k bb p : ℕ) (ps : List ℕ) (h : Slob)
    → unlink p (with_block bb k p ps h).bigblocks
      ≡ (some (record { block = bb; order = k; pages = p }), h.bigblocks)
unfolding unlink
unlink-with_block k bb p ps h = rw (==-self p)

kfree-with_block :
    (fuel k bb p : ℕ) (ps : List ℕ) (h : Slob)
    → p ≢ 0
    → is_page_aligned p ≡ true
    → kfree fuel p (with_block bb k p ps h)
      ≡ slob_free fuel bb bigblock_size (record h { pages = ps; freed = (p, k) ∷ h.freed })
unfolding kfree
kfree-with_block fuel k bb p ps h z a =
    rw (is_zero p z, a, unlink-with_block k bb p ps h)
      (ap
        (λ r.
          slob_free fuel bb bigblock_size
            (record h { bigblocks = r; pages = ps; freed = (p, k) ∷ h.freed }))
        (ap (λ r. r.1) (unlink-with_block k bb p ps h)))

ksize-with_block :
    (k bb p : ℕ) (ps : List ℕ) (h : Slob)
    → p ≢ 0
    → is_page_aligned p ≡ true
    → ksize p (with_block bb k p ps h) ≡ page_size * 2 ^ k
unfolding ksize unlink
ksize-with_block k bb p ps h z a = rw (is_zero p z, a, ==-self p)

pub big_alloc-kfree :
    (fuel size k bb p : ℕ) (ps : List ℕ) (h : Slob)
    → k < fuel
    → size < 2 ^ 31
    → HasOrder k size
    → p ≢ 0
    → is_page_aligned p ≡ true
    → h.pages ≡ p ∷ ps
    → (g : Slob) × (big_alloc fuel size bb h ≡ ok (p, g))
      × (ksize p g ≡ page_size * 2 ^ k)
      × (kfree fuel p g
          ≡ slob_free fuel bb bigblock_size (record h { pages = ps; freed = (p, k) ∷ h.freed }))
big_alloc-kfree fuel size k bb p ps h f b o z a e = (
  with_block bb k p ps h,
  big_alloc-takes fuel size k bb p ps h f b o z e,
  ksize-with_block k bb p ps h z a,
  kfree-with_block fuel k bb p ps h z a,
)

-- A request of a size of order `k` (`HasOrder`) below 2^31, with fuel above `k` and aligned pages to
-- come, where the size is above 4096 * 2^k, such as 8193 for `k` = 1: it returns pages of which
-- `ksize` is less than the size.
pub big_alloc-short :
    (fuel size k bb p : ℕ) (ps : List ℕ) (h : Slob)
    → k < fuel
    → size < 2 ^ 31
    → HasOrder k size
    → page_size * 2 ^ k < size
    → p ≢ 0
    → is_page_aligned p ≡ true
    → h.pages ≡ p ∷ ps
    → (g : Slob) × (big_alloc fuel size bb h ≡ ok (p, g)) × (ksize p g < size)
big_alloc-short fuel size k bb p ps h f b o s z a e =
    let (g, t, l, _) = big_alloc-kfree fuel size k bb p ps h f b o z a e in (g, t, omega (arith, l))
