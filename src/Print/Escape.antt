-- ===== src/Print/Escape.antt =====
-- libs/printfmt.c: the arguments of `vprintfmt`, and the flags of a %-escape up to its conversion.
use os_lab.Base.{
  ℕ, zero, suc, ◌+◌, ◌-◌, ◌*◌, ◌%◌, ◌^◌, Bool, true, false, Option, none, some, List, [], ◌∷◌, Run,
  ok, spin, fault, ltb, leb, ◌==◌, ◌&&◌, ◌||◌, if◌then◌else◌, ◌>>=◌, ℤ, pos, negsuc,
}

-- The variables that an escape sets.
pub record Spec : Type 0 where
  pub padc : ℕ
  pub width : ℤ
  pub precision : ℤ
  pub lflag : ℕ
  pub altflag : Bool

abbrev pub default_spec : Spec
default_spec = record {
  padc = 32;
  width = negsuc 0;
  precision = negsuc 0;
  lflag = 0;
  altflag = false;
}

abbrev pub is_negative : ℤ → Bool
is_negative (pos _) = false
is_negative (negsuc _) = true

-- `va_arg`.
abbrev pub next_arg : List ℕ → ℕ × List ℕ
next_arg [] = (0, [])
next_arg (a ∷ args) = (a, args)

-- `getint` and `getuint`, as 64-bit patterns.
unfoldable pub int_arg : ℕ → ℕ → ℕ
int_arg lflag a =
    let w = a % 2 ^ 32 in
    if leb 1 lflag then a % 2 ^ 64 else if ltb w (2 ^ 31) then w else w + (2 ^ 64 - 2 ^ 32)

unfoldable pub uint_arg : ℕ → ℕ → ℕ
uint_arg lflag a = if leb 1 lflag then a % 2 ^ 64 else a % 2 ^ 32

-- The `int` with a pattern of 32 bits.
abbrev pub to_int : ℕ → ℤ
to_int a = let w = a % 2 ^ 32 in if ltb w (2 ^ 31) then pos w else negsuc (2 ^ 32 - 1 - w)

-- The digits of a field width behind those that make `val`, and the address behind them; C leaves an
-- `int` that overflows undefined.
unfoldable pub read_width : ℕ → ℕ → ℕ → (ℕ → ℕ) → Run (ℕ × ℕ)
read_width zero val fmt m = spin
read_width (suc fuel) val fmt m =
    let on = read_width fuel (val * 10 + m fmt - 48) (fmt + 1) m in
    if ltb (m fmt) 48 || ltb 57 (m fmt)
    then ok (val, fmt)
    else if leb (2 ^ 31) (val * 10 + m fmt)
    then fault
    else on

-- `process_precision`.
abbrev pub with_precision : ℤ → Spec → Spec
with_precision precision spec =
    if is_negative spec.width
    then record spec { width = precision; precision = negsuc 0 }
    else record spec { precision = precision }

-- A character in front of the conversion, with `fmt` behind it: the flags, the arguments and the
-- address of the next character; `none` if it is the conversion.
unfoldable pub read_flag : ℕ → ℕ → ℕ → Spec → List ℕ → (ℕ → ℕ) → Run (Option (Spec × List ℕ × ℕ))
unfolding read_width
read_flag fuel ch fmt spec args m =
    if ch == b'-'
    then ok (some (record spec { padc = 45 }, args, fmt))
    else if ch == b'0'
    then ok (some (record spec { padc = 48 }, args, fmt))
    else if leb b'1' ch && leb ch b'9'
    then (read_width fuel (ch - 48) fmt m >>= λ r.
        ok (some (with_precision (pos r.0) spec, args, r.1)))
    else if ch == b'*'
    then (let (a, rest) = next_arg args in ok (some (with_precision (to_int a) spec, rest, fmt)))
    else if ch == b'.'
    then ok
        (some ((if is_negative spec.width then record spec { width = pos 0 } else spec), args, fmt))
    else if ch == b'#'
    then ok (some (record spec { altflag = true }, args, fmt))
    else if ch == b'l'
    then ok (some (record spec { lflag = spec.lflag + 1 }, args, fmt))
    else ok none

-- From `reswitch` to the conversion, whose address is the last result.
unfoldable pub escape : ℕ → ℕ → Spec → List ℕ → (ℕ → ℕ) → Run (Spec × List ℕ × ℕ)
unfolding read_flag
escape zero fmt spec args m = spin
escape (suc fuel) fmt spec args m = read_flag fuel (m fmt) (fmt + 1) spec args m >>= λ r. elim r [
  | none ↦ ok (spec, args, fmt)
  | some (spec', args', fmt') ↦ escape fuel fmt' spec' args' m
]

-- The default case: the address behind the last '%' in front of the character at `fmt`.
unfoldable pub back_up : ℕ → (ℕ → ℕ) → ℕ
back_up zero m = zero
back_up (suc p) m = let on = back_up p m in if m p == 37 then suc p else on
