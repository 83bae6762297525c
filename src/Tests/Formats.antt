-- ===== src/Tests/Formats.antt =====
-- libs/printfmt.c at concrete formats.
use os_lab.CString.Number.{strtol}
use os_lab.Print.Buffer.{Holds, vsnprintf-Holds}
use os_lab.Print.RoundTrip.{strtol-vsnprintf}
use os_lab.Base.{
  ℕ, fault, inl, inr, pos, ◌+◌, arith, ◌-◌, ◌^◌, ◌++◌, ◌≡◌, refl, [], ◌∷◌, ok, codes, literal,
}
use os_lab.CString.{strnlen}
use os_lab.Print.{
  vsnprintf, vprintfmt, convert, printnum, put_chars, put_string, put_pointer, put_signed,
  put_unsigned, put_error,
}
use os_lab.Print.Escape.{escape, read_flag, read_width, back_up, int_arg, uint_arg}

format_test :
    vprintfmt 30 0
      ((2 ^ 64 - 42) ∷ 255 ∷ 30 ∷ 4 ∷ [])
      (literal (codes "[%-5ld|%08x|%5s|%e|%q]" ++ 0 ∷ 0 ∷ 0 ∷ 0 ∷ 0 ∷ 0 ∷ 0 ∷ 0 ∷ codes "abc"))
    ≡ ok (codes "[----42|000000ff|  abc|out of memory|%q]")
unfolding vprintfmt convert escape read_flag read_width back_up int_arg uint_arg printnum put_chars
    put_string put_pointer put_signed put_unsigned put_error strnlen
format_test = refl

-- The format "%ld", and "hi" from the address 40 on.
abbrev long_format : ℕ → ℕ
long_format = literal (codes "%ld")

prints_hey :
    (k : ℕ → ℕ)
    → k 0 ≡ b'h'
    → k 1 ≡ b'e'
    → k 2 ≡ b'y'
    → k 3 ≡ 0
    → vprintfmt 4 0 [] k ≡ ok (codes "hey")
unfolding vprintfmt
prints_hey k a b c d = rw (a, b, c, d) refl

vsnprintf-Holds_example :
    (m' : ℕ → ℕ) × (vsnprintf 4 100 2 0 [] (literal (codes "hey")) ≡ ok (pos 3, m'))
    × Holds (literal (codes "hey")) m' 100 2 (codes "hey")
vsnprintf-Holds_example =
    vsnprintf-Holds 4 100 2 0 [] (codes "hey") (literal (codes "hey")) (omega arith) (omega arith)
      (omega arith) (omega arith)
      (λ k e.
        prints_hey k (e 0 (inl (omega arith))) (e 1 (inl (omega arith))) (e 2 (inl (omega arith)))
          (e 3 (inl (omega arith))))

strtol-vsnprintf_example :
    (m' : ℕ → ℕ) × (n : ℕ) × (vsnprintf 67 100 22 0 ((2 ^ 64 - 42) ∷ []) long_format
      ≡ ok (pos n, m'))
    × (strtol 22 100 10 m' ≡ ok (2 ^ 64 - 42, 100 + n))
strtol-vsnprintf_example =
    strtol-vsnprintf 67 22 100 22 0 (2 ^ 64 - 42) long_format (omega arith) (omega arith)
      (omega arith) (omega arith) (omega arith) (inr (omega arith))
      (refl, (refl, (refl, (refl, tt)))) (omega arith) (omega arith)

abbrev wide_format : ℕ → ℕ
wide_format = literal (codes "%12d")

-- Ten digits of a field width, and the error number INT_MIN, overflow.
width_overflow_test : vprintfmt 40 0 (5 ∷ []) (literal (codes "%2147483648d")) ≡ fault
unfolding vprintfmt escape read_flag read_width
width_overflow_test = refl

error_overflow_test : vprintfmt 40 0 (2 ^ 31 ∷ []) (literal (codes "%e")) ≡ fault
unfolding vprintfmt escape read_flag convert put_error
error_overflow_test = refl
