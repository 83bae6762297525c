-- ===== src/Atomic.antt =====
-- libs/atomic.h: single bits of a word. A `or`, `and not` or `xor` with a mask of one bit is
-- written by the bit that it changes; `nr` is below 64, where BIT_WORD is 0.
use os_lab.Base.{ℕ, ◌+◌, ◌-◌, ◌/◌, ◌%◌, ◌^◌, Bool, ◌==◌, if◌then◌else◌}
pub mod Laws

unfoldable pub test_bit : ℕ → ℕ → Bool
test_bit nr w = (w / 2 ^ nr) % 2 == 1

unfoldable pub set_bit : ℕ → ℕ → ℕ
unfolding test_bit
set_bit nr w = if test_bit nr w then w else w + 2 ^ nr

unfoldable pub clear_bit : ℕ → ℕ → ℕ
unfolding test_bit
clear_bit nr w = if test_bit nr w then w - 2 ^ nr else w

unfoldable pub change_bit : ℕ → ℕ → ℕ
unfolding test_bit
change_bit nr w = if test_bit nr w then w - 2 ^ nr else w + 2 ^ nr
