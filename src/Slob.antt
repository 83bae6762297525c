-- ===== src/Slob.antt =====
-- kern/mm/kmalloc.c: the SLOB allocator. An address counts units of SLOB_UNIT, 16 bytes, to which all
-- blocks are aligned; 0 is NULL. `pages` holds the answers of the coming calls of
-- `__slob_get_free_pages`, 0 for NULL, and `freed` the calls of `__slob_free_pages`. The list
-- `bigblocks` is the sequence of its members.
pub mod Order
pub mod Big
pub mod Circle
pub mod Free
pub mod Place
pub mod Release
pub mod Take
pub mod Remove
pub mod Search
pub mod Alloc
use os_lab.Base.{
  ℕ, zero, suc, ◌+◌, ◌-◌, ◌*◌, ◌/◌, ◌%◌, ◌^◌, Bool, true, false, Option, none, some, List, [], ◌∷◌,
  Run, ok, panic, spin, ltb, leb, ◌==◌, ◌&&◌, ◌||◌, not, if◌then◌else◌, ◌>>=◌, ◌>>◌, assert,
}
use os_lab.Links.{update}

-- `struct bigblock`, with its address.
pub record BigBlock : Type 0 where
  pub block : ℕ
  pub order : ℕ
  pub pages : ℕ

-- `units` and `next` are the fields of the `slob_block` at each address.
pub record Slob : Type 0 where
  pub units : ℕ → ℕ
  pub next : ℕ → ℕ
  pub slobfree : ℕ
  pub bigblocks : List BigBlock
  pub pages : List ℕ
  pub freed : List (ℕ × ℕ)

abbrev pub page_size : ℕ
page_size = 4096

abbrev pub slob_unit : ℕ
slob_unit = 16

unfoldable pub slob_units : ℕ → ℕ
slob_units size = (size + slob_unit - 1) / slob_unit

abbrev pub set_units : ℕ → ℕ → Slob → Slob
set_units p v h = record h { units = update h.units p v }

abbrev pub set_next : ℕ → ℕ → Slob → Slob
set_next p v h = record h { next = update h.next p v }

unfoldable pub get_free_pages : Slob → ℕ × Slob
get_free_pages h = elim h.pages [ [] ↦ (0, h) | p ∷ ps ↦ (p, record h { pages = ps }) ]

-- The loop of `slob_free`: the entry behind which block `b` belongs.
unfoldable pub find_place : ℕ → ℕ → ℕ → Slob → Run ℕ
find_place zero b cur h = spin
find_place (suc fuel) b cur h =
    let at = h.next cur in
    let on = find_place fuel b at h in
    if ltb cur b && ltb b at
    then ok cur
    else if leb at cur && (ltb cur b || ltb b at)
    then ok cur
    else on

-- The merge of `b` with the block behind it, and with the one in front, `cur`.
unfoldable pub join_next : ℕ → ℕ → Slob → Slob
join_next b cur h =
    let after = h.next cur in
    if b + h.units b == after
    then set_next b (h.next after) (set_units b (h.units b + h.units after) h)
    else set_next b after h

unfoldable pub join_prev : ℕ → ℕ → Slob → Slob
join_prev b cur h =
    if cur + h.units cur == b
    then set_next cur (h.next b) (set_units cur (h.units cur + h.units b) h)
    else set_next cur b h

unfoldable pub slob_free : ℕ → ℕ → ℕ → Slob → Run Slob
unfolding join_next join_prev slob_units
slob_free fuel block size h =
    if block == 0
    then ok h
    else (let g = if size == 0 then h else set_units block (slob_units size) h in
        find_place fuel block g.slobfree g >>= λ cur.
        ok (record (join_prev block cur (join_next block cur g)) { slobfree = cur }))

-- ALIGN of an address, in units; `align` is a power of 2 in bytes.
unfoldable pub align_up : ℕ → ℕ → ℕ
align_up addr align = (addr * slob_unit + align - 1) / align * align / slob_unit

-- `cur` has room: what is left of it goes back to the list. The assignments are in the order in
-- which C makes them.
unfoldable pub take_units : ℕ → ℕ → ℕ → Slob → ℕ × Slob
take_units units prev cur h =
    if h.units cur == units
    then (cur, record (set_next prev (h.next cur) h) { slobfree = prev })
    else (let h1 = set_next prev (cur + units) h in
        let h2 = set_units (h1.next prev) (h1.units cur - units) h1 in
        let h3 = set_next (h2.next prev) (h2.next cur) h2 in
        (cur, record (set_units cur units h3) { slobfree = prev }))

-- The head of `cur` in front of the aligned address stays in the list.
unfoldable pub take_block : ℕ → ℕ → ℕ → ℕ → Slob → ℕ × Slob
unfolding take_units
take_block units delta prev cur h =
    if delta == 0
    then take_units units prev cur h
    else (let aligned = cur + delta in
        let h1 = set_units aligned (h.units cur - delta) h in
        let h2 = set_next aligned (h1.next cur) h1 in
        let h3 = set_next cur aligned h2 in take_units units cur aligned (set_units cur delta h3))

-- The search of `slob_alloc`. After a page was added it goes on behind `slobfree`.
unfoldable pub search_units : ℕ → ℕ → ℕ → ℕ → ℕ → Slob → Run (ℕ × Slob)
search_units zero size align prev cur h = spin
search_units (suc fuel) size align prev cur h =
    let units = slob_units size in
    let delta = if align == 0 then 0 else align_up cur align - cur in
    let next = search_units fuel size align cur (h.next cur) h in
    let (page, g) = get_free_pages h in
    let grown = slob_free (suc fuel) page page_size g >>= λ u.
    search_units fuel size align u.slobfree (u.next u.slobfree) u in
    if leb (units + delta) (h.units cur)
    then ok (take_block units delta prev cur h)
    else if cur == h.slobfree
    then (if size == page_size then ok (0, h) else if page == 0 then ok (0, g) else grown)
    else next

unfoldable pub slob_alloc : ℕ → ℕ → ℕ → Slob → Run (ℕ × Slob)
slob_alloc fuel size align h =
    assert (ltb (size + slob_unit) page_size)
    >> search_units fuel size align h.slobfree (h.next h.slobfree) h

-- `for (; size > 4096; size >>= 1) order++`.
unfoldable pub find_order : ℕ → ℕ → ℕ → Run ℕ
find_order zero size order = spin
find_order (suc fuel) size order =
    let on = find_order fuel (size / 2) (order + 1) in if ltb 4096 size then on else ok order

-- The argument of `find_order`, an `int`: a negative one takes no round, as 0 does.
unfoldable pub as_int : ℕ → ℕ
as_int size = let w = size % 2 ^ 32 in if ltb w (2 ^ 31) then w else 0

-- sizeof(bigblock_t).
abbrev pub bigblock_size : ℕ
bigblock_size = 24

-- `__kmalloc` from the call of `find_order` on.
unfoldable pub big_alloc : ℕ → ℕ → ℕ → Slob → Run (ℕ × Slob)
big_alloc fuel size bb h = do
  order ← find_order fuel (as_int size) 0
  let (p, g) = get_free_pages h
  if p == 0
      then (slob_free fuel bb bigblock_size g >>= λ u. ok (0, u))
      else ok (
        p,
        record g { bigblocks = record { block = bb; order = order; pages = p } ∷ g.bigblocks },
      )

unfoldable pub kmalloc : ℕ → ℕ → Slob → Run (ℕ × Slob)
kmalloc fuel size h =
    if ltb size (page_size - slob_unit)
    then (slob_alloc fuel (size + slob_unit) 0 h >>= λ r.
        ok ((if r.0 == 0 then 0 else r.0 + 1), r.1))
    else (slob_alloc fuel bigblock_size 0 h >>= λ r.
        if r.0 == 0 then ok (0, r.1) else big_alloc fuel size r.0 r.1)

-- The member of `bigblocks` with these pages, and the others.
unfoldable pub unlink : ℕ → List BigBlock → Option BigBlock × List BigBlock
unlink block [] = (none, [])
unlink block (b ∷ bs) =
    let (found, rest) = unlink block bs in
    if b.pages == block then (some b, bs) else (found, b ∷ rest)

-- A block whose byte address is a multiple of PAGE_SIZE.
abbrev pub is_page_aligned : ℕ → Bool
is_page_aligned block = block % (page_size / slob_unit) == 0

unfoldable pub kfree : ℕ → ℕ → Slob → Run Slob
unfolding unlink
kfree fuel block h =
    if block == 0
    then ok h
    else (let (found, rest) = unlink block h.bigblocks in
        elim (if is_page_aligned block then found else none) [
          | none ↦ slob_free fuel (block - 1) 0 h
          | some bb ↦
              slob_free fuel bb.block bigblock_size
                (record h { bigblocks = rest; freed = (block, bb.order) ∷ h.freed })
        ])

unfoldable pub ksize : ℕ → Slob → ℕ
unfolding unlink
ksize block h =
    if block == 0
    then 0
    else elim (if is_page_aligned block then (unlink block h.bigblocks).0 else none) [
      | none ↦ h.units (block - 1) * slob_unit
      | some bb ↦ page_size * 2 ^ bb.order
    ]
