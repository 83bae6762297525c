-- ===== src/Paging/Items.antt =====
-- `get_pgtable_items` and `perm2str` of kern/mm/pmm.c: the runs of equal entries of a table.
use os_lab.Base.{
  ℕ, zero, suc, ◌+◌, ◌-◌, ◌%◌, ◌^◌, ◌/◌, ◌<◌, ◌≤◌, ◌≡◌, ◌≢◌, ◌⊎◌, Bool, true, false, Option, none,
  some, List, [], ◌∷◌, leb, ◌==◌, not, if◌then◌else◌,
}
use os_lab.Paging.{is_valid}

-- `& PTE_USER`.
abbrev pub user_bits : ℕ → ℕ
user_bits pte = pte % 2 ^ 5

-- `while (start < right && test) start++`, with `n` entries before `right`.
unfoldable pub skip_while : ℕ → ℕ → (ℕ → Bool) → ℕ
skip_while zero start test = start
skip_while (suc n) start test =
    let on = skip_while n (suc start) test in if test start then on else start

-- The permissions with `*left_store` and `*right_store`, which are `none` where they are not set.
unfoldable pub get_pgtable_items : ℕ → ℕ → (ℕ → ℕ) → ℕ × Option (ℕ × ℕ)
unfolding skip_while
get_pgtable_items right start table =
    let left = skip_while (right - start) start (λ j. not (is_valid (table j))) in
    let perm = user_bits (table left) in
    let stop = skip_while (right - suc left) (suc left) (λ j. user_bits (table j) == perm) in
    if leb right start
    then (0, none)
    else if leb right left
    then (0, none)
    else (perm, some (left, stop))

unfoldable pub perm2str : ℕ → List ℕ
perm2str perm =
    (if perm / 2 ^ 4 % 2 == 1 then b'u' else b'-')
    ∷ b'r'
    ∷ (if perm / 2 ^ 2 % 2 == 1 then b'w' else b'-')
    ∷ []

-- The entries from `start` to before `left` are not valid, those from `left` to before `stop` are
-- valid with the same permissions `perm`, and the run goes no further.
pub record IsRun (table : ℕ → ℕ) (start right perm left stop : ℕ) : Type 0 where
  pub above : start ≤ left
  pub some_entry : left < stop
  pub inside : stop ≤ right
  pub before : (j : ℕ) → start ≤ j → j < left → is_valid (table j) ≡ false
  pub valid : (j : ℕ) → left ≤ j → j < stop → is_valid (table j) ≡ true
  pub equal : (j : ℕ) → left ≤ j → j < stop → user_bits (table j) ≡ perm
  pub maximal : (stop ≡ right) ⊎ (user_bits (table stop) ≢ perm)

record Skips (n start : ℕ) (test : ℕ → Bool) (k : ℕ) : Type 0 where
  above : start ≤ k
  below : k ≤ start + n
  passed : (j : ℕ) → start ≤ j → j < k → test j ≡ true
  stopped : (k ≡ start + n) ⊎ (test k ≡ false)
