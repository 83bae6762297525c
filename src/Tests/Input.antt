-- ===== src/Tests/Input.antt =====
-- kern/libs/readline.c at a concrete input.
use os_lab.Base.{◌≡◌, refl, [], ◌∷◌, some}
use os_lab.Readline.{Editor, readline}
use os_lab.Readline.Line.{IsLine, readline-IsLine}

abbrev empty : Editor
empty = record { buf = λ _. 0; i = 0; echo = [] }

-- "ac", a backspace, "b" and a newline make "ab".
readline-IsLine_example :
    (f : Editor) × (readline (97 ∷ 99 ∷ 8 ∷ 98 ∷ 10 ∷ 1 ∷ []) empty ≡ (some f, 1 ∷ []))
    × IsLine f.buf (98 ∷ 97 ∷ [])
readline-IsLine_example =
    readline-IsLine (97 ∷ 99 ∷ 8 ∷ 98 ∷ []) (1 ∷ []) 10 empty (refl, (refl, (refl, (refl, tt))))
      refl refl
