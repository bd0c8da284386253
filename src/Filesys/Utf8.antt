-- ===== src/Filesys/Utf8.antt =====
-- `spr_utf8_decode` of lib/spr_filesys.c (Windows): one character of UTF-8 from the bytes at `*p`. A
-- read behind the end of the bytes is undefined behaviour, `none`.
pub mod RoundTrip
use spr.Base.{
  ℕ, zero, suc, ◌+◌, ◌-◌, ◌*◌, ◌%◌, ◌^◌, Option, none, some, List, [], ◌∷◌, ltb, leb, if◌then◌else◌,
}
use spr.Base.Word

-- The two results for bytes that are no character.
abbrev pub invalid : ℕ
invalid = 0xffffffff

abbrev pub incomplete : ℕ
incomplete = 0xfffffffe

-- `(u << 6) | (i & 0x3f)` in 32 bits
abbrev pub shift_in : ℕ → ℕ → ℕ
shift_in u i = (u * 64 + i % 64) % 2 ^ 32

-- The loop over `len` bytes that follow the first, with the bits so far; its value is what `u` is at
-- the end, or `invalid` from within, and the bytes behind.
unfoldable pub decode_tail : (len u : ℕ) → List ℕ → Option (Option ℕ × List ℕ)
decode_tail zero u p = some (some u, p)
decode_tail (suc len) u [] = none
decode_tail (suc len) u (i ∷ p) =
    let rest = decode_tail len (shift_in u i) p in if ltb i 0x80 then some (none, p) else rest

-- `if (u > valid) return u; return 0xffffffff;`
abbrev pub checked_value : ℕ → Option ℕ × List ℕ → ℕ × List ℕ
checked_value valid (none, p) = (invalid, p)
checked_value valid (some u, p) = (if ltb valid u then u else invalid, p)

-- What follows a first byte `u` that announces `len` more; `n` bytes may be read in all.
unfoldable pub decode_more : (u valid len n first : ℕ) → List ℕ → Option (ℕ × List ℕ)
unfolding decode_tail Word.sub
decode_more u valid len n first p =
    if ltb (Word.sub n 1) len
    then some (incomplete, first ∷ p)
    else elim (decode_tail len u p) [ none ↦ none | some r ↦ some (checked_value valid r) ]

-- The value, and where `*p` points then.
unfoldable pub utf8_decode : List ℕ → ℕ → Option (ℕ × List ℕ)
unfolding decode_more
utf8_decode [] n = none
utf8_decode (c ∷ p) n =
    if leb 0xf0 c
    then decode_more (c % 8) 0xffff 3 n c p
    else if leb 0xe0 c
    then decode_more (c % 16) 0x7ff 2 n c p
    else if leb 0xc2 c
    then decode_more (c % 32) 0x7f 1 n c p
    else some (invalid, p)
