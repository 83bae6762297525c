-- ===== src/Readline/Line.antt =====
-- What line kern/libs/readline.c reads: its buffer against a list of characters.
use os_lab.Base.{
  ℕ, ◌<◌, ◌≤◌, ◌≡◌, refl, subst, List, [], ◌∷◌, ◌++◌, length, Bool, true, false, some, ltb, leb,
  ◌==◌, ◌&&◌, if◌then◌else◌, arith, Bool-cases, inl, inr,
}
use os_lab.Links.{update}
use os_lab.Readline.{Editor, type_char, readline, ends_line, bufsize}

abbrev pub drop_last : List ℕ → List ℕ
drop_last [] = []
drop_last (x ∷ xs) = xs

-- What a character makes of the line, which is kept with its last character first: a printable one
-- is added while there are fewer than 1023, a backspace takes the last one away.
abbrev pub edit : ℕ → List ℕ → List ℕ
edit c xs = if leb 32 c && ltb (length xs) 1023 then c ∷ xs else if c == 8 then drop_last xs else xs

-- The buffer holds a line, its last character first.
abbrev pub Holds : (ℕ → ℕ) → List ℕ → Type 0
Holds buf [] = Unit {0}
Holds buf (x ∷ xs) = (buf (length xs) ≡ x) × Holds buf xs

record Shows (e : Editor) (xs : List ℕ) : Type 0 where
  count : e.i ≡ length xs
  chars : Holds e.buf xs

Holds-frame :
    (buf : ℕ → ℕ) (p c : ℕ) (xs : List ℕ) → length xs ≤ p → Holds buf xs → Holds (update buf p c) xs
Holds-frame buf p c [] l h = tt
Holds-frame buf p c (x ∷ xs) l h = (ground (arith, h.0), Holds-frame buf p c xs (omega arith) h.1)

type_char-backspace :
    (c : ℕ) (e : Editor) (xs : List ℕ)
    → (leb 32 c && ltb e.i 1023) ≡ false
    → (c == 8) ≡ true
    → Shows e xs
    → Shows (type_char c e) (drop_last xs)
unfolding type_char
type_char-backspace c e [] t u s = rw (t, u, none) s
  where
    none : ltb 0 e.i ≡ false
    none = ground (arith, s.count)
type_char-backspace c e (x ∷ xs) t u s =
    rw (t, u, some) (record { count = omega (arith, s.count); chars = s.chars.1 })
  where
    some : ltb 0 e.i ≡ true
    some = ground (arith, s.count)

type_char-added :
    (c : ℕ) (e : Editor) (xs : List ℕ)
    → (leb 32 c && ltb e.i 1023) ≡ true
    → Shows e xs
    → Shows (type_char c e) (c ∷ xs)
unfolding type_char
type_char-added c e xs t s = rw t (record {
  count = omega (arith, s.count);
  chars = (ground (arith, s.count), Holds-frame e.buf e.i c xs (omega (arith, s.count)) s.chars);
})

type_char-ignored :
    (c : ℕ) (e : Editor) (xs : List ℕ)
    → (leb 32 c && ltb e.i 1023) ≡ false
    → (c == 8) ≡ false
    → Shows e xs
    → Shows (type_char c e) xs
unfolding type_char
type_char-ignored c e xs t u s = rw (t, u) s

type_char-Shows :
    (c : ℕ) (e : Editor) (xs : List ℕ) → Shows e xs → Shows (type_char c e) (edit c xs)
type_char-Shows c e xs s = elim (Bool-cases (leb 32 c && ltb e.i 1023)) [
  | inl t ↦ rw (fits true t) (type_char-added c e xs t s)
  | inr t ↦ elim (Bool-cases (c == 8)) [
    | inl u ↦ rw (fits false t, u) (type_char-backspace c e xs t u s)
    | inr u ↦ rw (fits false t, u) (type_char-ignored c e xs t u s)
  ]
]
  where
    fits : (b : Bool) → (leb 32 c && ltb e.i 1023) ≡ b → (leb 32 c && ltb (length xs) 1023) ≡ b
    fits b t = subst (λ n. (leb 32 c && ltb n 1023) ≡ b) s.count t

-- The line that the characters `cs` make of `xs`.
abbrev pub edits : List ℕ → List ℕ → List ℕ
edits xs [] = xs
edits xs (c ∷ cs) = edits (edit c xs) cs

-- None of the characters ends the line.
abbrev pub IsPlain : List ℕ → Type 0
IsPlain [] = Unit {0}
IsPlain (c ∷ cs) = (ends_line c ≡ false) × IsPlain cs

-- The buffer holds the line, and a 0 behind it, which still is in the buffer.
pub record IsLine (buf : ℕ → ℕ) (xs : List ℕ) : Type 0 where
  pub chars : Holds buf xs
  pub stop : buf (length xs) ≡ 0
  pub fits : length xs < bufsize

drop_last-length : (xs : List ℕ) → length (drop_last xs) ≤ length xs
drop_last-length [] = omega arith
drop_last-length (x ∷ xs) = omega arith

edit-length : (c : ℕ) (xs : List ℕ) → length xs < 1024 → length (edit c xs) < 1024
edit-length c xs h = elim (Bool-cases (leb 32 c && ltb (length xs) 1023)) [
  | inl t ↦ rw t (ground (arith, t))
  | inr t ↦ elim (Bool-cases (c == 8)) [
    | inl u ↦ rw (t, u) (omega (arith, drop_last-length xs))
    | inr u ↦ rw (t, u) h
  ]
]

readline-from :
    (cs rest : List ℕ) (end : ℕ) (e : Editor) (xs : List ℕ)
    → IsPlain cs
    → ends_line end ≡ true
    → Shows e xs
    → length xs < 1024
    → (f : Editor) × (readline (cs ++ end ∷ rest) e ≡ (some f, rest)) × IsLine f.buf (edits xs cs)
unfolding readline
readline-from [] rest end e xs p t s l = (
  record { buf = update e.buf e.i 0; i = e.i; echo = end ∷ e.echo },
  rw t refl,
  record {
    chars = Holds-frame e.buf e.i 0 xs (omega (arith, s.count)) s.chars;
    stop = ground (arith, s.count);
    fits = l;
  },
)
readline-from (c ∷ cs) rest end e xs p t s l =
    let (f, run, line) =
      readline-from cs rest end (type_char c e) (edit c xs) p.1 t (type_char-Shows c e xs s)
        (edit-length c xs l) in
    (f, rw p.0 run, line)

-- `readline` with an empty buffer reads up to the first newline or carriage return: it returns a
-- buffer with the line that the characters in front of it make, whatever their number, and a 0
-- behind it, within the 1024 bytes; the input from there on is left.
pub readline-IsLine :
    (cs rest : List ℕ) (end : ℕ) (e : Editor)
    → IsPlain cs
    → ends_line end ≡ true
    → e.i ≡ 0
    → (f : Editor) × (readline (cs ++ end ∷ rest) e ≡ (some f, rest)) × IsLine f.buf (edits [] cs)
readline-IsLine cs rest end e p t z =
    readline-from cs rest end e [] p t (record { count = z; chars = tt }) (omega arith)
