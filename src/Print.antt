-- ===== src/Print.antt =====
-- libs/printfmt.c: formatted output. `m` is the memory that holds the format and the strings, and
-- the result of a function the characters of its calls of `putch`, in their order; the memory is not
-- changed while they are made. An argument of a `va_list` is a 64-bit pattern, and 0 is what lies
-- behind the last one. Where `precision` or `err` overflows the outcome is `fault`; `width` and `lflag`
-- are taken not to reach the ends of `int` as they are counted down and up.
pub mod Escape
pub mod Digits
pub mod Buffer
pub mod Decimal
pub mod RoundTrip
pub mod Flags
pub mod Ends
pub mod Total
use Prim.Native.String.{String}
use os_lab.Base.{
  ℕ, zero, suc, ◌+◌, ◌-◌, ◌*◌, ◌/◌, ◌%◌, ◌^◌, Bool, true, false, Option, none, some, List, [], ◌∷◌,
  ◌++◌, length, Run, ok, panic, spin, fault, ltb, leb, ◌==◌, ◌&&◌, ◌||◌, not, if◌then◌else◌, ◌>>=◌,
  ◌>>◌, ℤ, pos, negsuc, negate, codes, literal,
}
use os_lab.Links.{update}
use os_lab.Print.Escape.{
  Spec, default_spec, is_negative, to_int, next_arg, int_arg, uint_arg, escape, back_up,
}
use os_lab.CString.{strnlen}

abbrev pub maxerror : ℕ
maxerror = 6

-- `error_string`, [] for NULL.
abbrev pub error_string : ℕ → List ℕ
error_string err =
    if err == 1
    then codes "unspecified error"
    else if err == 2
    then codes "bad process"
    else if err == 3
    then codes "invalid parameter"
    else if err == 4
    then codes "out of memory"
    else if err == 5
    then codes "out of processes"
    else if err == 6
    then codes "segmentation fault"
    else []

-- `n` times the same character.
abbrev pub replicate : ℕ → ℕ → List ℕ
replicate zero c = []
replicate (suc n) c = c ∷ replicate n c

-- The rounds of `for (; width > 0; width --)`.
abbrev pub rounds : ℤ → ℕ
rounds (pos n) = n
rounds (negsuc n) = 0

abbrev pub decrement : ℤ → ℤ
decrement (pos zero) = negsuc 0
decrement (pos (suc n)) = pos n
decrement (negsuc n) = negsuc (suc n)

-- "0123456789abcdef"[mod], 0 from its end on; `printnum` has bases up to 16, so that `mod` is below 16.
abbrev pub digit_char : ℕ → ℕ
digit_char d = if ltb d 10 then 48 + d else if ltb d 16 then 87 + d else 0

-- `while (-- width > 0)` pads with `rounds width - 1` characters.
unfoldable pub printnum : ℕ → ℕ → ℕ → ℤ → ℕ → Run (List ℕ)
printnum zero num base width padc = spin
printnum (suc fuel) num base width padc =
    let front = printnum fuel (num / base) base (decrement width) padc in
    (if leb base num then front else ok (replicate (rounds width - 1) padc)) >>= λ xs.
    ok (xs ++ digit_char (num % base) ∷ [])

abbrev pub is_spent : ℤ → Bool
is_spent (pos zero) = true
is_spent _ = false

abbrev pub lower : ℤ → ℤ
lower (pos (suc n)) = pos n
lower p = p

-- The loop over the characters of a string.
unfoldable pub put_chars : ℕ → ℕ → ℤ → Bool → (ℕ → ℕ) → Run (List ℕ)
put_chars zero p precision altflag m = spin
put_chars (suc fuel) p precision altflag m =
    let shown = if altflag && (ltb (m p) 32 || ltb 126 (m p)) then 63 else m p in
    let rest = put_chars fuel (p + 1) (lower precision) altflag m >>= λ xs. ok (shown ∷ xs) in
    if m p == 0 || is_spent precision then ok [] else rest

-- A precision that is passed as a `size_t`.
abbrev pub as_size : ℤ → ℕ
as_size (pos n) = n
as_size (negsuc n) = 2 ^ 64 - 1 - n

-- The case 's', where `p` is a string of the memory `m`.
unfoldable pub put_string : ℕ → ℕ → Spec → (ℕ → ℕ) → Run (List ℕ)
put_string fuel p spec m =
    let leads = ltb 0 (rounds spec.width) && not (spec.padc == 45) in
    let lead = if leads then rounds spec.width - strnlen p (as_size spec.precision) m else 0 in
    put_chars fuel p spec.precision spec.altflag m >>= λ xs. ok (
      replicate lead spec.padc
      ++ (xs ++ replicate (if leads then 0 else rounds spec.width - length xs) 32))

-- The text of the case 's' for NULL.
abbrev pub null_text : ℕ → ℕ
null_text = literal (codes "(null)")

unfoldable pub put_pointer : ℕ → ℕ → Spec → (ℕ → ℕ) → Run (List ℕ)
unfolding put_string
put_pointer fuel p spec m =
    if p == 0 then put_string fuel 0 spec null_text else put_string fuel p spec m

-- The cases 'd', 'u', 'o', 'p' and 'x' of the argument `a`.
unfoldable pub put_signed : ℕ → ℕ → Spec → Run (List ℕ)
put_signed fuel a spec =
    let num = int_arg spec.lflag a in
    if leb (2 ^ 63) num
    then (printnum fuel ((2 ^ 64 - num) % 2 ^ 64) 10 spec.width spec.padc >>= λ xs. ok (45 ∷ xs))
    else printnum fuel num 10 spec.width spec.padc

unfoldable pub put_unsigned : ℕ → ℕ → ℕ → Spec → Run (List ℕ)
put_unsigned fuel base a spec = printnum fuel (uint_arg spec.lflag a) base spec.width spec.padc

-- The absolute value of the `int` argument `a`, which is not INT_MIN.
abbrev pub error_number : ℕ → ℕ
error_number a = let w = a % 2 ^ 32 in if ltb w (2 ^ 31) then w else 2 ^ 32 - w

-- The case 'e', where the negation of INT_MIN is undefined. `printfmt` is the call of that function, on a memory that holds its format at 0.
unfoldable pub put_error : ((ℕ → ℕ) → List ℕ → Run (List ℕ)) → ℕ → Run (List ℕ)
put_error printfmt a =
    let err = error_number a in
    if a % 2 ^ 32 == 2 ^ 31
    then fault
    else if ltb maxerror err || length (error_string err) == 0
    then printfmt (literal (codes "error %d")) (err ∷ [])
    else printfmt (literal (codes "%s" ++ 0 ∷ error_string err)) (3 ∷ [])

abbrev pub take_out : List ℕ → ℕ → Run (List ℕ) → Run (List ℕ × List ℕ × ℕ)
take_out args fmt out = out >>= λ xs. ok (xs, args, fmt)

-- One conversion: its character stands at `fmt`. The results are the output, the remaining
-- arguments and where the format goes on.
unfoldable pub convert :
    ((ℕ → ℕ) → List ℕ → Run (List ℕ)) → ℕ → ℕ → Spec → List ℕ → (ℕ → ℕ) → Run (List ℕ × List ℕ × ℕ)
convert printfmt fuel fmt spec args m =
    let (a, rest) = next_arg args in
    let taken = take_out rest (fmt + 1) in
    if m fmt == b'c'
    then ok ((a % 2 ^ 32) ∷ [], rest, fmt + 1)
    else if m fmt == b'e'
    then taken (put_error printfmt a)
    else if m fmt == b's'
    then taken (put_pointer fuel a spec m)
    else if m fmt == b'd'
    then taken (put_signed fuel a spec)
    else if m fmt == b'u'
    then taken (put_unsigned fuel 10 a spec)
    else if m fmt == b'o'
    then taken (put_unsigned fuel 8 a spec)
    else if m fmt == b'p'
    then taken (printnum fuel (a % 2 ^ 64) 16 spec.width spec.padc >>= λ xs. ok (48 ∷ 120 ∷ xs))
    else if m fmt == b'x'
    then taken (put_unsigned fuel 16 a spec)
    else if m fmt == b'%'
    then ok (37 ∷ [], args, fmt + 1)
    else ok (37 ∷ [], args, back_up fmt m)

unfoldable pub vprintfmt : ℕ → ℕ → List ℕ → (ℕ → ℕ) → Run (List ℕ)
vprintfmt zero fmt args m = spin
vprintfmt (suc fuel) fmt args m =
    let escaped = escape fuel (fmt + 1) default_spec args m >>= λ r.
    convert (λ m' args'. vprintfmt fuel 0 args' m') fuel r.2 r.0 r.1 m >>= λ q.
    vprintfmt fuel q.2 q.1 m >>= λ rest. ok (q.0 ++ rest) in
    let plain = vprintfmt fuel (fmt + 1) args m >>= λ rest. ok (m fmt ∷ rest) in
    if m fmt == 37 then escaped else if m fmt == 0 then ok [] else plain

-- `struct sprintbuf`, and the memory that it points into; `cnt` is the 32-bit pattern of an `int`.
pub record SprintBuf : Type 0 where
  pub buf : ℕ
  pub ebuf : ℕ
  pub cnt : ℕ
  pub bytes : ℕ → ℕ

unfoldable pub sprintputch : ℕ → SprintBuf → SprintBuf
sprintputch ch b =
    let c = record b { cnt = (b.cnt + 1) % 2 ^ 32 } in
    if ltb b.buf b.ebuf
    then record c { buf = b.buf + 1; bytes = update b.bytes b.buf (ch % 256) }
    else c

unfoldable pub sprint_all : List ℕ → SprintBuf → SprintBuf
sprint_all [] b = b
sprint_all (c ∷ cs) b = sprint_all cs (sprintputch c b)

-- The `int` result with the memory, for a buffer apart from the format and the strings: the characters
-- are those that `vprintfmt` prints from the memory as it is before the first is stored.
unfoldable pub vsnprintf : ℕ → ℕ → ℕ → ℕ → List ℕ → (ℕ → ℕ) → Run (ℤ × (ℕ → ℕ))
unfolding sprint_all
vsnprintf fuel str size fmt args m =
    let b : SprintBuf = record {
      buf = str;
      ebuf = (str + size + 2 ^ 64 - 1) % 2 ^ 64;
      cnt = 0;
      bytes = m;
    } in
    if str == 0 || ltb b.ebuf b.buf
    then ok (negate 3, m)
    else (vprintfmt fuel fmt args m >>= λ out.
        let e = sprint_all out b in ok (to_int e.cnt, update e.bytes e.buf 0))
