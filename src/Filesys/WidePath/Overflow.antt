-- ===== src/Filesys/WidePath/Overflow.antt =====
-- What the callers of `spr_path_to_wchar` do: they pass the size of their buffer in bytes as its length.
use spr.Base.{
  ℕ, ◌*◌, ◌<◌, ◌≡◌, refl, none, some, List, [], ◌∷◌, ◌++◌, All, length, length-append, ltb, leb,
  if◌then◌else◌, arith,
}
use spr.Filesys.WidePath.{wide_buffer}
use spr.Filesys.WidePath.RoundTrip.{IsCharacter, utf8, utf16, path_to_wchar-utf8}

-- A path whose UTF-16 form takes `max_path` units or more, but less than twice as many, is written
-- past the end of the buffer of `max_path` units; a shorter path is converted.
pub wide_buffer-overflow :
    (max_path : ℕ) (cs rest : List ℕ)
    → All IsCharacter cs
    → length (utf16 cs) < max_path * 2
    → wide_buffer max_path (utf8 cs ++ 0 ∷ rest)
      ≡ (if ltb (length (utf16 cs)) max_path then some (utf16 cs ++ 0 ∷ []) else none)
unfolding wide_buffer
wide_buffer-overflow max_path cs rest h f =
    let n = length-append (utf16 cs) (0 ∷ []) in
    let e = path_to_wchar-utf8 (max_path * 2) cs rest h f in
    let t : leb (length (utf16 cs ++ 0 ∷ [])) max_path ≡ ltb (length (utf16 cs)) max_path =
      ground (arith, n) in
    rw (wide_buffer, e, t) refl
