-- ===== src/Print/Total.antt =====
-- `vprintfmt` of libs/printfmt.c returns, for every format and all arguments.
use os_lab.Base.{ℕ, suc, ◌+◌, ◌≡◌, ◌≢◌, ◌⊎◌, List, Run, ok}
use os_lab.Print.Escape.{back_up}
use os_lab.Print.Flags.{FarArgs}
use os_lab.Print.Ends.{Ends}

-- The two calls of `printfmt` that print an error, with fuel enough.
abbrev add_17 : ℕ → ℕ
add_17 f = suc (
    suc (suc (suc (suc (suc (suc (suc (suc (suc (suc (suc (suc (suc (suc (suc (suc f))))))))))))))))

abbrev add_24 : ℕ → ℕ
add_24 f = suc (suc (suc (suc (suc (suc (suc (add_17 f)))))))

-- A conversion ends, and the format goes on behind it or behind its '%'.
abbrev Goes : (ℕ → ℕ) → ℕ → ℕ → Type 0
Goes m fmt next = ((m fmt ≢ 0) × (next ≡ fmt + 1)) ⊎ (next ≡ back_up fmt m)

abbrev Converts : ℕ → (ℕ → ℕ) → ℕ → Run (List ℕ × List ℕ × ℕ) → Type 0
Converts room m fmt r = (x : List ℕ × List ℕ × ℕ) × (r ≡ ok x) × Goes m fmt x.2 × FarArgs room x.1
