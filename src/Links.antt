-- ===== src/Links.antt =====
-- libs/list.h: the circular doubly linked list, over a store of `prev` and `next` pointers.
-- An entry is its address, and a pointer write is a function update.

pub mod Chain
pub mod Insert
pub mod Remove
pub mod Ring
use os_lab.Base.{ℕ, Bool, ◌==◌, if◌then◌else◌}

abbrev pub update {ℓ} : {A : Type ℓ} → (ℕ → A) → ℕ → A → ℕ → A
update f p v q = if q == p then v else f q

-- `struct list_entry` at every address.
pub record Links : Type 0 where
  pub next : ℕ → ℕ
  pub prev : ℕ → ℕ

abbrev pub set_next : ℕ → ℕ → Links → Links
set_next p v h = record h { next = update h.next p v }

abbrev pub set_prev : ℕ → ℕ → Links → Links
set_prev p v h = record h { prev = update h.prev p v }

unfoldable pub list_init : ℕ → Links → Links
list_init elm h = set_prev elm elm (set_next elm elm h)

-- `__list_add`: the assignments in the order in which C makes them.
unfoldable pub list_add_between : ℕ → ℕ → ℕ → Links → Links
list_add_between elm prev next h =
    set_prev elm prev (set_next elm next (set_next prev elm (set_prev next elm h)))

-- `__list_del`.
unfoldable pub list_del_between : ℕ → ℕ → Links → Links
list_del_between prev next h = set_prev next prev (set_next prev next h)

unfoldable pub list_add_after : ℕ → ℕ → Links → Links
unfolding list_add_between
list_add_after listelm elm h = list_add_between elm listelm (h.next listelm) h

unfoldable pub list_add : ℕ → ℕ → Links → Links
unfolding list_add_after
list_add listelm elm h = list_add_after listelm elm h

unfoldable pub list_add_before : ℕ → ℕ → Links → Links
unfolding list_add_between
list_add_before listelm elm h = list_add_between elm (h.prev listelm) listelm h

unfoldable pub list_del : ℕ → Links → Links
unfolding list_del_between
list_del listelm h = list_del_between (h.prev listelm) (h.next listelm) h

unfoldable pub list_del_init : ℕ → Links → Links
unfolding list_del list_init
list_del_init listelm h = list_init listelm (list_del listelm h)

unfoldable pub list_empty : ℕ → Links → Bool
list_empty list h = h.next list == list

unfoldable pub list_next : ℕ → Links → ℕ
list_next listelm h = h.next listelm

unfoldable pub list_prev : ℕ → Links → ℕ
list_prev listelm h = h.prev listelm
