-- ===== src/Str/Number/Laws.antt =====
-- What the numbers of lib/spr_string.c mean: the decimal value, or -1.
use spr.Base.{
  ℕ, zero, suc, ◌+◌, ◌-◌, ◌*◌, ◌≤◌, ◌<◌, ◌≡◌, refl, sym, ap, ◌==◌, Bool, true, false, ◌&&◌, some,
  List, [], ◌∷◌, length, take, leb, if◌then◌else◌, arith, Bool-cases, inl, inr,
}
use spr.Base.Int.{ℤ, pos, negsuc}
use spr.Str.Number.{int_max, is_not_digit, overflows, number_loop, atoi, atosz}

-- '0' to '9'
abbrev pub is_digit : ℕ → Bool
is_digit c = leb 48 c && leb c 57

abbrev pub all_digits : List ℕ → Bool
all_digits [] = true
all_digits (c ∷ cs) = is_digit c && all_digits cs

-- the value of the digits, read behind those of `v`
abbrev pub decimal : ℕ → List ℕ → ℕ
decimal v [] = v
decimal v (c ∷ cs) = decimal (v * 10 + (c - 48)) cs

-- What the text stands for: its value where it is all digits and the type holds it, else -1.
abbrev pub value_or_error : ℕ → List ℕ → ℤ
value_or_error v cs =
    if all_digits cs && leb (decimal v cs) int_max then pos (decimal v cs) else negsuc 0

decimal_grows : (v : ℕ) (cs : List ℕ) → v ≤ decimal v cs
decimal_grows v [] = omega arith
decimal_grows v (c ∷ cs) = omega (arith, decimal_grows (v * 10 + (c - 48)) cs)

too_large : (v : ℕ) (cs : List ℕ) → int_max < v → value_or_error v cs ≡ negsuc 0
too_large v cs h = let g = decimal_grows v cs in ground arith

-- The test for overflow is exact.
large :
    (v c : ℕ) → is_not_digit c ≡ false → overflows v (c - 48) ≡ true → int_max < v * 10 + (c - 48)
large v c e f = ground arith

small :
    (v c : ℕ) → is_not_digit c ≡ false → overflows v (c - 48) ≡ false → v * 10 + (c - 48) ≤ int_max
small v c e f = ground arith

number_loop_lem :
    (v n : ℕ) (cs : List ℕ)
    → v ≤ int_max
    → n ≤ length cs
    → number_loop v n cs ≡ some (value_or_error v (take n cs))
unfolding number_loop
number_loop_lem v zero cs h k = ground arith
number_loop_lem v (suc n) [] h k = absurd (omega arith)
number_loop_lem v (suc n) (c ∷ cs) h k = elim (Bool-cases (is_not_digit c)) [
  | inl e ↦ let d : is_digit c ≡ false = ground arith in rw (e, d) refl
  | inr e ↦
      let d : is_digit c ≡ true = ground arith in
      elim (Bool-cases (overflows v (c - 48))) [
        | inl f ↦
            rw (e, f, d) (ap some (sym (too_large (v * 10 + (c - 48)) (take n cs) (large v c e f))))
        | inr f ↦
            let ih = number_loop_lem (v * 10 + (c - 48)) n cs (small v c e f) (omega arith) in
            rw (e, f, d) ih
      ]
]

-- `spr_atoi`, and `spr_atosz` as well, of bytes that can be read is their decimal value where they are
-- one or more of the digits '0' to '9' and the value fits the type, and -1 otherwise.
pub atoi_lem :
    (str : List ℕ) (n : ℕ)
    → n ≤ length str
    → (atoi str n ≡ some (if n == 0 then negsuc 0 else value_or_error 0 (take n str)))
      × (atosz str n ≡ some (if n == 0 then negsuc 0 else value_or_error 0 (take n str)))
unfolding atoi atosz
atoi_lem str n h =
    let e = number_loop_lem 0 n str (omega arith) h in (grind (arith, e), grind (arith, e))
