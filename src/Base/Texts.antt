-- ===== src/Base/Texts.antt =====
-- Text literals of the source as bytes in memory.
use Prim.Native.Nat.{ℕ, zero, suc}
use Prim.Native.String.{String}
use Prim.Native.Char.{code}
use mathlib.Core.List.{List, [], ◌∷◌}

-- The bytes of an ASCII text.
abbrev pub codes : String → List ℕ
codes String.[] = []
codes (String.◌∷◌ c s) = code c ∷ codes s

-- A memory that holds the bytes from the address 0 on, and zeros behind them.
abbrev pub literal : List ℕ → ℕ → ℕ
literal [] p = 0
literal (b ∷ bs) zero = b
literal (b ∷ bs) (suc p) = literal bs p
