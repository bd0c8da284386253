-- ===== src/Str/Number.antt =====
-- `spr_atoi` and `spr_atosz` of lib/spr_string.c, which are the same code for two types of 64 bits.
pub mod Laws
use spr.Base.{
  ℕ, zero, suc, ◌+◌, ◌-◌, ◌*◌, ◌/◌, ◌%◌, ◌^◌, Option, none, some, Bool, List, [], ◌∷◌, ◌||◌, ◌&&◌,
  ltb, leb, ◌==◌, if◌then◌else◌,
}
use spr.Base.Int.{ℤ, pos, negsuc}

-- `SPR_INT_T_MAX` and `SPR_SSIZE_T_MAX`
abbrev pub int_max : ℕ
int_max = 2 ^ 63 - 1

-- `SPR_INT_T_MAX / 10` and `SPR_INT_T_MAX % 10`
abbrev pub cutoff : ℕ
cutoff = int_max / 10

abbrev pub cutlim : ℕ
cutlim = int_max % 10

-- `str[i] < '0' || str[i] > '9'`; a byte from 128 on is negative as a `char`, and not a digit either
abbrev pub is_not_digit : ℕ → Bool
is_not_digit c = ltb c 48 || ltb 57 c

-- `value >= cutoff && (value > cutoff || temp > cutlim)`
abbrev pub overflows : ℕ → ℕ → Bool
overflows value temp = leb cutoff value && (ltb cutoff value || ltb cutlim temp)

-- The loop, with the value so far and the bytes that are left to read.
unfoldable pub number_loop : (value n : ℕ) → List ℕ → Option ℤ
number_loop value zero str = some (pos value)
number_loop value (suc n) [] = none
number_loop value (suc n) (c ∷ cs) =
    let temp = c - 48 in
    let rest = number_loop (value * 10 + temp) n cs in
    if is_not_digit c
    then some (negsuc 0)
    else if overflows value temp
    then some (negsuc 0)
    else rest

-- `spr_atoi`
unfoldable pub atoi : List ℕ → ℕ → Option ℤ
atoi str n = if n == 0 then some (negsuc 0) else number_loop 0 n str

-- `spr_atosz`
unfoldable pub atosz : List ℕ → ℕ → Option ℤ
atosz str n = if n == 0 then some (negsuc 0) else number_loop 0 n str
