-- ===== src/Base/Bits/Single.antt =====
-- Single binary digits under `bit_and` and `bit_or`.
use Prim.Native.Nat.{min, max, digits, bit_and, bit_or, bit_and-bitwise, bit_or-bitwise}
use spr.Base.{ℕ, zero, suc, ◌+◌, ◌-◌, ◌*◌, ◌/◌, ◌%◌, ◌≤◌, ◌<◌, ◌≡◌, refl, ap, ◌∙◌, arith}

-- Digit `k` of a number, the lowest first.
abbrev pub bit : ℕ → ℕ → ℕ
bit zero n = n % 2
bit (suc k) n = bit k (n / 2)

-- The number of which digit `k` alone is set.
abbrev pub one_bit : ℕ → ℕ
one_bit zero = 1
one_bit (suc k) = one_bit k * 2

-- Any count of digits that is enough gives the same number.
module _ (z : ℕ → ℕ) (f : ℕ → ℕ → ℕ) where
  digits_enough : (n m a b : ℕ) → a ≤ n → a ≤ m → digits z f n a b ≡ digits z f m a b
  digits_enough zero zero a b p q = refl
  digits_enough zero (suc m) zero b p q = refl
  digits_enough zero (suc m) (suc a) b p q = absurd (omega arith)
  digits_enough (suc n) zero zero b p q = refl
  digits_enough (suc n) zero (suc a) b p q = absurd (omega arith)
  digits_enough (suc n) (suc m) zero b p q = refl
  digits_enough (suc n) (suc m) (suc a) b p q =
      ap (λ c. c * 2 + f (suc a % 2) (b % 2))
        (digits_enough n m (suc a / 2) (b / 2) (omega arith) (omega arith))

-- The lowest digit, and the rest.
pub bit_or_step : (a b : ℕ) → bit_or a b ≡ bit_or (a / 2) (b / 2) * 2 + max (a % 2) (b % 2)
bit_or_step zero b = omega (arith, bit_or-bitwise 0 b, bit_or-bitwise 0 (b / 2))
bit_or_step (suc a) b =
    let rest =
      digits_enough (λ c. c) max a (suc a / 2) (suc a / 2) (b / 2) (omega arith) (omega arith) in
    omega (arith, bit_or-bitwise (suc a) b, bit_or-bitwise (suc a / 2) (b / 2), rest)

pub bit_and_step : (a b : ℕ) → bit_and a b ≡ bit_and (a / 2) (b / 2) * 2 + min (a % 2) (b % 2)
bit_and_step zero b = omega (arith, bit_and-bitwise 0 b, bit_and-bitwise 0 (b / 2))
bit_and_step (suc a) b =
    let rest =
      digits_enough (λ c. zero) min a (suc a / 2) (suc a / 2) (b / 2) (omega arith) (omega arith) in
    omega (arith, bit_and-bitwise (suc a) b, bit_and-bitwise (suc a / 2) (b / 2), rest)

-- Both work digit by digit.
pub bit-bit_or : (k a b : ℕ) → bit k (bit_or a b) ≡ max (bit k a) (bit k b)
bit-bit_or zero a b = omega (arith, bit_or_step a b)
bit-bit_or (suc k) a b =
    let half : bit_or a b / 2 ≡ bit_or (a / 2) (b / 2) = omega (arith, bit_or_step a b) in
    ap (bit k) half ∙ bit-bit_or k (a / 2) (b / 2)

pub bit-bit_and : (k a b : ℕ) → bit k (bit_and a b) ≡ min (bit k a) (bit k b)
bit-bit_and zero a b = omega (arith, bit_and_step a b)
bit-bit_and (suc k) a b =
    let half : bit_and a b / 2 ≡ bit_and (a / 2) (b / 2) = omega (arith, bit_and_step a b) in
    ap (bit k) half ∙ bit-bit_and k (a / 2) (b / 2)

pub bit-lt-two : (k n : ℕ) → bit k n < 2
bit-lt-two zero n = omega arith
bit-lt-two (suc k) n = bit-lt-two k (n / 2)

-- To test one digit.
bit_and-zero : (k a : ℕ) → a ≤ k → bit_and a 0 ≡ 0
bit_and-zero zero a h =
    let e : a ≡ 0 = omega arith in omega (arith, bit_and-bitwise 0 0, ap (λ b. bit_and b 0) e)
bit_and-zero (suc k) zero h = omega (arith, bit_and-bitwise 0 0)
bit_and-zero (suc k) (suc a) h =
    omega (arith, bit_and_step (suc a) 0, bit_and-zero k (suc a / 2) (omega arith))

pub bit_and-one_bit : (k a : ℕ) → bit_and a (one_bit k) ≡ bit k a * one_bit k
bit_and-one_bit zero a = omega (arith, bit_and_step a 1, bit_and-zero (a / 2) (a / 2) (omega arith))
bit_and-one_bit (suc k) a =
    let half : one_bit k * 2 / 2 ≡ one_bit k = omega arith in
    let even : one_bit k * 2 % 2 ≡ 0 = omega arith in
    let ih = bit_and-one_bit k (a / 2) in
    let step = bit_and_step a (one_bit k * 2) in
    step
    ∙ ap (λ c. bit_and (a / 2) c * 2 + min (a % 2) (one_bit k * 2 % 2)) half
    ∙ ap (λ c. c * 2 + min (a % 2) (one_bit k * 2 % 2)) ih
    ∙ grind (arith, even)

-- To set a digit that is not set.
bit_or-zero : (k a : ℕ) → a ≤ k → bit_or a 0 ≡ a
bit_or-zero zero a h =
    let e : a ≡ 0 = omega arith in omega (arith, bit_or-bitwise 0 0, ap (λ b. bit_or b 0) e)
bit_or-zero (suc k) zero h = omega (arith, bit_or-bitwise 0 0)
bit_or-zero (suc k) (suc a) h =
    omega (arith, bit_or_step (suc a) 0, bit_or-zero k (suc a / 2) (omega arith))

pub bit_or-one_bit : (k a : ℕ) → bit k a ≡ 0 → bit_or a (one_bit k) ≡ a + one_bit k
bit_or-one_bit zero a h = omega (arith, bit_or_step a 1, bit_or-zero (a / 2) (a / 2) (omega arith))
bit_or-one_bit (suc k) a h =
    let half : one_bit k * 2 / 2 ≡ one_bit k = omega arith in
    let even : one_bit k * 2 % 2 ≡ 0 = omega arith in
    let ih = bit_or-one_bit k (a / 2) h in
    bit_or_step a (one_bit k * 2)
    ∙ ap (λ c. bit_or (a / 2) c * 2 + max (a % 2) (one_bit k * 2 % 2)) half
    ∙ ap (λ c. c * 2 + max (a % 2) (one_bit k * 2 % 2)) ih
    ∙ omega (arith, even)

-- To invert all of `w` digits.
pub bit_complement : (w k n : ℕ) → k < w → n < one_bit w → bit k (one_bit w - 1 - n) ≡ 1 - bit k n
bit_complement zero k n h l = absurd (omega arith)
bit_complement (suc w) zero n h l = omega arith
bit_complement (suc w) (suc k) n h l =
    let half : (one_bit w * 2 - 1 - n) / 2 ≡ one_bit w - 1 - n / 2 = omega arith in
    ap (bit k) half ∙ bit_complement w k (n / 2) (omega (arith, h)) (omega (arith, l))
