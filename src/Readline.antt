-- ===== src/Readline.antt =====
-- kern/libs/readline.c. `input` holds the characters that `getchar` answers, and a negative answer
-- behind them; a character is a number from 0 on. `echo` collects the calls of `cputchar`.
pub mod Line
use os_lab.Base.{
  ℕ, zero, suc, ◌+◌, ◌-◌, Bool, true, false, Option, none, some, List, [], ◌∷◌, ltb, leb, ◌==◌,
  ◌&&◌, ◌||◌, if◌then◌else◌,
}
use os_lab.Links.{update}

abbrev pub bufsize : ℕ
bufsize = 1024

-- The buffer, the number of characters in it, and what was echoed, the latest first.
pub record Editor : Type 0 where
  pub buf : ℕ → ℕ
  pub i : ℕ
  pub echo : List ℕ

-- What `readline` does with a character that does not end the line.
unfoldable pub type_char : ℕ → Editor → Editor
type_char c e =
    if leb 32 c && ltb e.i (bufsize - 1)
    then record { buf = update e.buf e.i c; i = e.i + 1; echo = c ∷ e.echo }
    else if c == 8 && ltb 0 e.i
    then record e { i = e.i - 1; echo = c ∷ e.echo }
    else e

abbrev pub ends_line : ℕ → Bool
ends_line c = c == 10 || c == 13

-- The loop: `none` for the return of NULL, with the input that is left.
unfoldable pub readline : List ℕ → Editor → Option Editor × List ℕ
readline [] e = (none, [])
readline (c ∷ cs) e =
    let rest = readline cs (type_char c e) in
    if ends_line c
    then (some (record e { buf = update e.buf e.i 0; echo = c ∷ e.echo }), cs)
    else rest
