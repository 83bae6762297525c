-- ===== src/Base/Outcome.antt =====
-- The outcome of kernel code: a result, a panic, a loop that used up its fuel, or an operation that C
-- leaves undefined.
use Prim.Native.Nat.{ℕ, zero, suc}
use mathlib.Core.Bool.{Bool, true, false}
use mathlib.Core.Path.{◌≡◌, refl}

pub data Run {ℓ} (A : Type ℓ) : Type ℓ where
  ok : A → Run A
  panic : Run A
  spin : Run A
  fault : Run A

infixl 5 ◌>>=◌ ◌>>◌
abbrev pub ◌>>=◌ {ℓ κ} : {A : Type ℓ} {B : Type κ} → Run A → (A → Run B) → Run B
ok a >>= f = f a
panic >>= f = panic
spin >>= f = spin
fault >>= f = fault

abbrev pub ◌>>◌ {ℓ} : {B : Type ℓ} → Run (Unit {0}) → Run B → Run B
m >> k = m >>= λ _. k

-- Where a chain returns, each of its parts does.
pub bind-ok :
    {A : Type 0} {B : Type 0} (r : Run A) (f : A → Run B) (b : B)
    → (r >>= f) ≡ ok b
    → (a : A) × (r ≡ ok a) × (f a ≡ ok b)
bind-ok (ok a) f b e = (a, refl, e)
bind-ok panic f b e = absurd (cc)
bind-ok spin f b e = absurd (cc)
bind-ok fault f b e = absurd (cc)

-- The value of a result, and `d` where there is none.
abbrev pub value_or {ℓ} : {A : Type ℓ} → A → Run A → A
value_or d (ok a) = a
value_or d panic = d
value_or d spin = d
value_or d fault = d

-- `assert` of kern/debug/assert.h.
abbrev pub assert : Bool → Run (Unit {0})
assert true = ok tt
assert false = panic

-- A C `int` that may be negative: `negsuc n` is -(n + 1).
pub data ℤ : Type 0 where
  pos : ℕ → ℤ
  negsuc : ℕ → ℤ

abbrev pub negate : ℕ → ℤ
negate zero = pos 0
negate (suc n) = negsuc n
