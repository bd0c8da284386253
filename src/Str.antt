-- ===== src/Str.antt =====
-- lib/spr_string.c: numbers, lengths, comparison and search of C strings, and copies into a pool.
-- A string is the list of the bytes (0 to 255) from its address on; a read behind the end of the
-- list is undefined behaviour, `none`.
pub mod Number
pub mod Length
pub mod Compare
pub mod Search
pub mod Copy
mod Tests
use spr.Base.{ℕ, ◌-◌, ◌*◌, ◌+◌, ◌<◌, List, [], ◌∷◌, All, ltb, if◌then◌else◌}
use spr.Base.Int.{ℤ, pos, negsuc}

-- `char` is signed: what a byte is as an `int`
abbrev pub char_value : ℕ → ℤ
char_value b = if ltb b 128 then pos b else negsuc (255 - b)

-- The bytes of a string before its terminator.
abbrev pub IsText : List ℕ → Type 0
IsText = All (λ b. (0 < b) × (b < 256))
