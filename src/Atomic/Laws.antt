-- ===== src/Atomic/Laws.antt =====
-- The two flag bits of a page, bits 0 and 1, are independent of one another.
use os_lab.Base.{ℕ, ◌≡◌, true, false, arith}
use os_lab.Atomic.{test_bit, set_bit, clear_bit}

pub test-set : (w : ℕ) → test_bit 1 (set_bit 1 w) ≡ true
unfolding set_bit
test-set w = ground arith

pub test-clear : (w : ℕ) → test_bit 1 (clear_bit 1 w) ≡ false
unfolding clear_bit
test-clear w = ground arith

pub test-set_other : (w : ℕ) → test_bit 0 (set_bit 1 w) ≡ test_bit 0 w
unfolding set_bit
test-set_other w = ground arith

pub test-clear_other : (w : ℕ) → test_bit 0 (clear_bit 1 w) ≡ test_bit 0 w
unfolding clear_bit
test-clear_other w = ground arith
