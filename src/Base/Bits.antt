-- ===== src/Base/Bits.antt =====
-- `bit_and` with a mask of ones above `j` clear bits, as in the alignment macros.
pub mod Single
use Prim.Native.Nat.{min, bit_and, digits, bit_and-bitwise}
use spr.Base.{ℕ, zero, suc, ◌+◌, ◌-◌, ◌*◌, ◌/◌, ◌%◌, ◌≤◌, ◌^◌, ◌<◌, ◌≡◌, refl, arith}

-- `ones j k` has the bits from `j` up to `j + k` set, and `top j k` those below `j` too.
abbrev ones : ℕ → ℕ → ℕ
ones zero zero = 0
ones zero (suc k) = ones zero k * 2 + 1
ones (suc j) k = ones j k * 2

abbrev top : ℕ → ℕ → ℕ
top zero k = ones zero k
top (suc j) k = top j k * 2 + 1

-- What is left of a number whose low `j` bits are cleared.
abbrev cleared : ℕ → ℕ → ℕ
cleared zero a = a
cleared (suc j) a = cleared j (a / 2) * 2

abbrev and_digits : ℕ → ℕ → ℕ → ℕ
and_digits n a b = digits (λ b. zero) min n a b

cleared-zero : (j : ℕ) → cleared j 0 ≡ 0
cleared-zero zero = refl
cleared-zero (suc j) = omega (arith, cleared-zero j)

and_digits-ones :
    (n j k a b : ℕ) → b ≡ ones j k → a ≤ n → a ≤ top j k → and_digits n a b ≡ cleared j a
and_digits-ones zero j k zero b e h t = omega (arith, cleared-zero j)
and_digits-ones zero j k (suc a) b e h t = absurd (omega arith)
and_digits-ones (suc n) j k zero b e h t = omega (arith, cleared-zero j)
and_digits-ones (suc n) zero zero (suc a) b e h t = absurd (omega arith)
and_digits-ones (suc n) zero (suc k) (suc a) b e h t =
    omega (
      arith,
      and_digits-ones n zero k (suc a / 2) (b / 2) (omega arith) (omega arith) (omega arith),
    )
and_digits-ones (suc n) (suc j) k (suc a) b e h t =
    omega
      (arith, and_digits-ones n j k (suc a / 2) (b / 2) (omega arith) (omega arith) (omega arith))

-- Clearing the low three bits of a 64-bit word rounds it down to a multiple of eight.
pub bit_and-align : (a : ℕ) → a < 2 ^ 64 → bit_and a (2 ^ 64 - 8) ≡ a - a % 8
bit_and-align a h = omega (
  arith,
  bit_and-bitwise a (2 ^ 64 - 8),
  and_digits-ones a 3 61 a (2 ^ 64 - 8) refl (omega arith) (omega arith),
)
