-- ===== src/Base/Word.antt =====
-- 64-bit `size_t` and `uintptr_t` arithmetic (SPR_PTR_SIZE is 8), with its wrap-around.
use spr.Base.{ℕ, ◌+◌, ◌-◌, ◌*◌, ◌%◌, ◌^◌, ◌≤◌, ◌<◌, ◌≡◌, arith}

abbrev pub word : ℕ
word = 2 ^ 64

unfoldable pub add : ℕ → ℕ → ℕ
add a b = (a + b) % word

unfoldable pub sub : ℕ → ℕ → ℕ
sub a b = (a + word - b) % word

unfoldable pub mul : ℕ → ℕ → ℕ
mul a b = (a * b) % word

pub add-fits : (a b : ℕ) → a + b < word → add a b ≡ a + b
unfolding add
add-fits a b h = omega arith

pub sub-fits : (a b : ℕ) → b ≤ a → a < word → sub a b ≡ a - b
unfolding sub
sub-fits a b h w = omega arith

pub mul-fits : (a b : ℕ) → a * b < word → mul a b ≡ a * b
unfolding mul
mul-fits a b h = omega arith
