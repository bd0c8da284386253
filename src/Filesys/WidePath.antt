-- ===== src/Filesys/WidePath.antt =====
-- `spr_path_to_wchar` of lib/spr_filesys.c (Windows): a path in UTF-8 as a string of UTF-16 units.
pub mod RoundTrip
pub mod Overflow
use spr.Base.{
  ℕ, zero, suc, ◌+◌, ◌-◌, ◌*◌, ◌/◌, ◌%◌, length, leb, Bool, true, false, Option, none, some, List,
  [], ◌∷◌, ◌++◌, ltb, ◌==◌, if◌then◌else◌,
}
use spr.Filesys.Utf8.{utf8_decode}

-- Whether the function returns its buffer, not NULL, and the units that it has written there.
abbrev pub Wide : Type 0
Wide = Bool × List ℕ

-- Units are written, and the loop goes on.
abbrev pub emit : List ℕ → Option Wide → Option Wide
emit units none = none
emit units (some (returned, more)) = some (returned, units ++ more)

-- `0xd800 + (n >> 10)` and `0xdc00 + (n & 0x03ff)`, with `n` less 0x10000
abbrev pub surrogates : ℕ → List ℕ
surrogates n = (0xd800 + (n - 0x10000) / 1024) ∷ (0xdc00 + (n - 0x10000) % 1024) ∷ []

-- The loop, with room for `k` more units; a read behind the end of the bytes is `none`.
unfoldable pub wchar_loop : ℕ → List ℕ → Option Wide
unfolding utf8_decode
wchar_loop zero p = some (false, [])
wchar_loop (suc k) [] = none
wchar_loop (suc zero) (c ∷ p) =
    if ltb c 0x80
    then if c == 0 then some (true, 0 ∷ []) else some (false, c ∷ [])
    else some (false, [])
wchar_loop (suc (suc k)) (c ∷ p) =
    let ascii = wchar_loop (suc k) p in
    if ltb c 0x80
    then if c == 0 then some (true, 0 ∷ []) else emit (c ∷ []) ascii
    else elim (utf8_decode (c ∷ p) 4) [
      | none ↦ none
      | some (n, rest) ↦
          let pair = wchar_loop k rest in
          let single = wchar_loop (suc k) rest in
          if ltb 0x10ffff n
          then some (false, [])
          else if ltb 0xffff n
          then emit (surrogates n) pair
          else emit (n ∷ []) single
    ]

unfoldable pub path_to_wchar : (outlen : ℕ) → List ℕ → Option Wide
unfolding wchar_loop
path_to_wchar outlen instr = wchar_loop outlen instr

-- `uint16_t wpath[SPR_MAX_PATH_LEN]` filled by `spr_path_to_wchar(wpath, sizeof(wpath), path)`; the
-- result is not looked at. A write behind the end of the buffer is undefined behaviour, `none`.
unfoldable pub wide_buffer : (max_path : ℕ) → List ℕ → Option (List ℕ)
unfolding path_to_wchar
wide_buffer max_path path = elim (path_to_wchar (max_path * 2) path) [
  | none ↦ none
  | some (returned, units) ↦ if leb (length units) max_path then some units else none
]
