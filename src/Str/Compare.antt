-- ===== src/Str/Compare.antt =====
-- `spr_strcasecmp` and `spr_strncasecmp` of lib/spr_string.c.
pub mod Laws
use spr.Base.{
  ℕ, zero, suc, ◌+◌, ◌-◌, ◌/◌, ◌%◌, ◌^◌, Option, none, some, List, [], ◌∷◌, ◌&&◌, ltb, leb, ◌==◌,
  if◌then◌else◌,
}
use spr.Base.Int.{ℤ, pos, negsuc}
use spr.Base.Word
use spr.Base.Word.{word}

-- `(spr_uint_t) *str`: the sign of the `char` is extended to 64 bits
abbrev pub char_word : ℕ → ℕ
char_word b = if ltb b 128 then b else word - 256 + b

-- `c | 0x20`
abbrev pub or_0x20 : ℕ → ℕ
or_0x20 c = if c / 32 % 2 == 1 then c else c + 32

-- `(c >= 'A' && c <= 'Z') ? (c | 0x20) : c`
abbrev pub to_lower : ℕ → ℕ
to_lower c = if leb 65 c && leb c 90 then or_0x20 c else c

-- A 64-bit word read as `spr_int_t`.
abbrev pub as_signed : ℕ → ℤ
as_signed w = if ltb w (2 ^ 63) then pos w else negsuc (word - 1 - w)

-- `c1 - c2`, returned as `spr_int_t`
abbrev pub difference : ℕ → ℕ → ℤ
difference c1 c2 = as_signed (Word.sub c1 c2)

unfoldable pub strcasecmp : List ℕ → List ℕ → Option ℤ
unfolding Word.sub
strcasecmp [] str2 = none
strcasecmp (a ∷ xs) [] = none
strcasecmp (a ∷ xs) (b ∷ ys) =
    let c1 = to_lower (char_word a) in
    let c2 = to_lower (char_word b) in
    let next = strcasecmp xs ys in
    if c1 == c2 then if c1 == 0 then some (pos 0) else next else some (difference c1 c2)

unfoldable pub strncasecmp : List ℕ → List ℕ → ℕ → Option ℤ
unfolding Word.sub
strncasecmp str1 str2 zero = some (pos 0)
strncasecmp [] str2 (suc n) = none
strncasecmp (a ∷ xs) [] (suc n) = none
strncasecmp (a ∷ xs) (b ∷ ys) (suc n) =
    let c1 = to_lower (char_word a) in
    let c2 = to_lower (char_word b) in
    let next = strncasecmp xs ys n in
    if c1 == c2 then if c1 == 0 then some (pos 0) else next else some (difference c1 c2)
