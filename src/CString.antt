-- ===== src/CString.antt =====
-- libs/string.c: the functions on bytes and strings, over a memory of bytes. A character is its
-- value as an `unsigned char`, a pointer an address, and 0 ends a string. A loop that a count ends
-- recurs on the rounds left; one that only a 0 byte ends takes fuel.
pub mod Copy
pub mod Strings
pub mod Compare
pub mod Number
use os_lab.Base.{
  ℕ, zero, suc, ◌+◌, ◌-◌, Bool, Option, none, some, Run, ok, spin, ltb, ◌==◌, ◌&&◌, ◌||◌, not,
  if◌then◌else◌, ℤ, pos, negate, leb,
}
use os_lab.Links.{update}

unfoldable pub strlen_loop : ℕ → ℕ → ℕ → (ℕ → ℕ) → Run ℕ
strlen_loop zero s cnt m = spin
strlen_loop (suc fuel) s cnt m =
    let on = strlen_loop fuel (s + 1) (cnt + 1) m in if m s == 0 then ok cnt else on

unfoldable pub strlen : ℕ → ℕ → (ℕ → ℕ) → Run ℕ
unfolding strlen_loop
strlen fuel s m = strlen_loop fuel s 0 m

-- The first argument is `len - cnt`.
unfoldable pub strnlen_loop : ℕ → ℕ → ℕ → (ℕ → ℕ) → ℕ
strnlen_loop zero s cnt m = cnt
strnlen_loop (suc left) s cnt m =
    let on = strnlen_loop left (s + 1) (cnt + 1) m in if m s == 0 then cnt else on

unfoldable pub strnlen : ℕ → ℕ → (ℕ → ℕ) → ℕ
unfolding strnlen_loop
strnlen s len m = strnlen_loop len s 0 m

-- The functions that return `dst` return the memory here.
unfoldable pub strcpy : ℕ → ℕ → ℕ → (ℕ → ℕ) → Run (ℕ → ℕ)
strcpy zero p src m = spin
strcpy (suc fuel) p src m =
    let m' = update m p (m src) in
    let on = strcpy fuel (p + 1) (src + 1) m' in if m src == 0 then ok m' else on

unfoldable pub strncpy : ℕ → ℕ → ℕ → (ℕ → ℕ) → ℕ → ℕ
strncpy p src zero m = m
strncpy p src (suc len) m =
    strncpy (p + 1) (if m src == 0 then src else src + 1) len (update m p (m src))

-- The difference of two bytes as an `int`.
abbrev pub byte_diff : ℕ → ℕ → ℤ
byte_diff a b = if leb b a then pos (a - b) else negate (b - a)

unfoldable pub strcmp : ℕ → ℕ → ℕ → (ℕ → ℕ) → Run ℤ
strcmp zero s1 s2 m = spin
strcmp (suc fuel) s1 s2 m =
    let on = strcmp fuel (s1 + 1) (s2 + 1) m in
    if not (m s1 == 0) && m s1 == m s2 then on else ok (byte_diff (m s1) (m s2))

unfoldable pub strncmp : ℕ → ℕ → ℕ → (ℕ → ℕ) → ℤ
strncmp s1 s2 zero m = pos 0
strncmp s1 s2 (suc n) m =
    let on = strncmp (s1 + 1) (s2 + 1) n m in
    if not (m s1 == 0) && m s1 == m s2 then on else byte_diff (m s1) (m s2)

-- `none` is NULL.
unfoldable pub strchr : ℕ → ℕ → ℕ → (ℕ → ℕ) → Run (Option ℕ)
strchr zero s c m = spin
strchr (suc fuel) s c m =
    let on = strchr fuel (s + 1) c m in
    if m s == 0 then ok none else if m s == c then ok (some s) else on

unfoldable pub strfind : ℕ → ℕ → ℕ → (ℕ → ℕ) → Run ℕ
strfind zero s c m = spin
strfind (suc fuel) s c m =
    let on = strfind fuel (s + 1) c m in if m s == 0 then ok s else if m s == c then ok s else on

unfoldable pub memset : ℕ → ℕ → ℕ → (ℕ → ℕ) → ℕ → ℕ
memset p c zero m = m
memset p c (suc n) m = memset (p + 1) c n (update m p c)

-- `*d ++ = *s ++`, `n` times.
unfoldable pub copy_up : ℕ → ℕ → ℕ → (ℕ → ℕ) → ℕ → ℕ
copy_up d s zero m = m
copy_up d s (suc n) m = copy_up (d + 1) (s + 1) n (update m d (m s))

-- `*-- d = *-- s`, `n` times.
unfoldable pub copy_down : ℕ → ℕ → ℕ → (ℕ → ℕ) → ℕ → ℕ
copy_down d s zero m = m
copy_down d s (suc n) m = copy_down (d - 1) (s - 1) n (update m (d - 1) (m (s - 1)))

unfoldable pub memmove : ℕ → ℕ → ℕ → (ℕ → ℕ) → ℕ → ℕ
unfolding copy_up copy_down
memmove dst src n m =
    if ltb src dst && ltb dst (src + n)
    then copy_down (dst + n) (src + n) n m
    else copy_up dst src n m

unfoldable pub memcpy : ℕ → ℕ → ℕ → (ℕ → ℕ) → ℕ → ℕ
unfolding copy_up
memcpy dst src n m = copy_up dst src n m

unfoldable pub memcmp : ℕ → ℕ → ℕ → (ℕ → ℕ) → ℤ
memcmp s1 s2 zero m = pos 0
memcmp s1 s2 (suc n) m =
    let on = memcmp (s1 + 1) (s2 + 1) n m in if m s1 == m s2 then on else byte_diff (m s1) (m s2)
