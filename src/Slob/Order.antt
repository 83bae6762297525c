-- ===== src/Slob/Order.antt =====
-- The sizes of kern/mm/kmalloc.c: the order that `find_order` makes of one.
use native.Mathlib.Nat.{pow-suc}
use os_lab.Base.{
  ℕ, zero, suc, ◌+◌, ◌-◌, ◌*◌, ◌/◌, ◌^◌, ◌≤◌, ◌<◌, ◌≡◌, ◌∙◌, ap, true, false, ltb, ok, panic, arith,
}
use os_lab.Slob.{Slob, find_order, as_int, kmalloc, slob_alloc, page_size, slob_unit}

-- The sizes of an order: up to 4096 bytes of order 0, and for every order above as many bytes as
-- halve to a size of the one below.
unfoldable pub HasOrder : ℕ → ℕ → Type 0
HasOrder zero size = size < 4097
HasOrder (suc k) size = (4097 * 2 ^ k ≤ size) × (size < 4097 * 2 ^ suc k)

halve-HasOrder : (k size : ℕ) → HasOrder (suc k) size → HasOrder k (size / 2)
unfolding HasOrder
halve-HasOrder zero size (l, u) = omega arith
halve-HasOrder (suc k) size (l, u) =
    (omega (arith, pow-suc 2 k), omega (arith, pow-suc 2 k, pow-suc 2 (suc k)))

large : (k size : ℕ) → HasOrder (suc k) size → ltb 4096 size ≡ true
unfolding HasOrder
large k size (l, u) = ground (arith, pow_pos k)
  where
    pow_pos : (n : ℕ) → 1 ≤ 2 ^ n
    pow_pos zero = omega arith
    pow_pos (suc n) = omega (arith, pow_pos n, pow-suc 2 n)

find_order-from :
    (fuel k size order : ℕ)
    → k < fuel
    → HasOrder k size
    → find_order fuel size order ≡ ok (order + k)
unfolding find_order HasOrder
find_order-from zero k size order f h = absurd (omega arith)
find_order-from (suc fuel) zero size order f h = ground (arith, h)
find_order-from (suc fuel) (suc k) size order f h = ground (
  arith,
  find_order-from fuel k (size / 2) (order + 1) (omega arith) (halve-HasOrder k size h),
  large k size h,
)

-- A size below 2^31 that is of order `k` by `HasOrder` gets that order from `find_order`, once the fuel
-- is above `k`. When the size is above 4096 * 2^k, which some sizes of each order are, the 2^k pages
-- of that order are too few for it.
pub find_order-lem :
    (fuel k size : ℕ)
    → k < fuel
    → size < 2 ^ 31
    → HasOrder k size
    → find_order fuel (as_int size) 0 ≡ ok k
unfolding as_int
find_order-lem fuel k size f b h =
    ap (λ s. find_order fuel s 0) (ground arith)
    ∙ find_order-from fuel k size 0 f h
    ∙ ap ok (omega arith)

-- A size of 4064 to 4079 bytes makes `kmalloc` panic, whatever is free: `kmalloc` takes it for a
-- small one, and with its header it fails the assertion of `slob_alloc`.
kmalloc-panics :
    (fuel size : ℕ) (h : Slob) → 4064 ≤ size → size < 4080 → kmalloc fuel size h ≡ panic
unfolding kmalloc slob_alloc
kmalloc-panics fuel size h l u = rw (small, too_large)
  where
    small : ltb size (page_size - slob_unit) ≡ true
    small = ground arith

    too_large : ltb (size + slob_unit + slob_unit) page_size ≡ false
    too_large = ground arith
