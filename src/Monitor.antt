-- ===== src/Monitor.antt =====
-- kern/debug/kmonitor.c: `parse`, on a memory of bytes. The pointers that it stores at `argv[0]`,
-- `argv[1]` and so on are a list in that order; its message is left out.
pub mod Words
use os_lab.Base.{
  ℕ, zero, suc, ◌+◌, Bool, true, false, Option, none, some, List, [], ◌∷◌, ◌++◌, length, Run, ok,
  spin, ◌==◌, ◌&&◌, ◌||◌, not, if◌then◌else◌, ◌>>=◌, ◌>>◌, ℤ, pos,
}
use os_lab.Links.{update}
use os_lab.CString.{strcmp}

-- MAXARGS, the number of elements of the `argv` of `runcmd`.
abbrev pub maxargs : ℕ
maxargs = 16

-- WHITESPACE.
abbrev pub is_white : ℕ → Bool
is_white c = c == 32 || c == 9 || c == 10 || c == 13

unfoldable pub skip_white : ℕ → ℕ → (ℕ → ℕ) → Run (ℕ × (ℕ → ℕ))
skip_white zero buf m = spin
skip_white (suc fuel) buf m =
    let on = skip_white fuel (buf + 1) (update m buf 0) in
    if not (m buf == 0) && is_white (m buf) then on else ok (buf, m)

unfoldable pub skip_word : ℕ → ℕ → (ℕ → ℕ) → Run ℕ
skip_word zero buf m = spin
skip_word (suc fuel) buf m =
    let on = skip_word fuel (buf + 1) m in
    if not (m buf == 0) && not (is_white (m buf)) then on else ok buf

-- The loop of `parse`; `fuel` is that of each inner loop, too.
unfoldable pub parse : ℕ → ℕ → ℕ → (ℕ → ℕ) → Run (List ℕ × (ℕ → ℕ))
parse zero fuel buf m = spin
parse (suc rounds) fuel buf m = skip_white fuel buf m >>= λ r.
    if r.1 r.0 == 0
    then ok ([], r.1)
    else (skip_word fuel r.0 r.1 >>= λ end.
        parse rounds fuel end r.1 >>= λ rest. ok (r.0 ∷ rest.0, rest.1))
