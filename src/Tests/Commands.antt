-- ===== src/Tests/Commands.antt =====
-- kern/debug/kmonitor.c at a concrete text.
use os_lab.Base.{ℕ, ◌≡◌, refl, ◌==◌, if◌then◌else◌, List, [], ◌∷◌, length, ok, arith}
use os_lab.Monitor.{parse}
use os_lab.Monitor.Words.{parse-lem}

-- The text "ls  a".
abbrev text : ℕ → ℕ
text q =
    if q == 0
    then 108
    else if q == 1
    then 115
    else if q == 2
    then 32
    else if q == 3
    then 32
    else if q == 4
    then 97
    else 0

parse-lem_example :
    (r : List ℕ × (ℕ → ℕ)) × (parse 3 4 0 text ≡ ok r) × (r.0 ≡ 0 ∷ 4 ∷ []) × (length r.0 ≡ 2)
parse-lem_example =
    parse-lem 3 4 0 0 text ((0, 1) ∷ (2, 0) ∷ []) (omega arith)
      (omega arith, omega arith, (omega arith, omega arith, omega arith))
      (tt, (refl, (refl, tt)), refl, ((refl, (refl, tt)), (refl, tt), refl, (tt, refl)))
