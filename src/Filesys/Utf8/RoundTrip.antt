-- ===== src/Filesys/Utf8/RoundTrip.antt =====
-- Decoding undoes the encoding of RFC 3629, for every character that is not ASCII.
use spr.Base.{
  ℕ, ◌+◌, ◌/◌, ◌%◌, ◌≤◌, ◌<◌, ◌≡◌, true, false, some, List, [], ◌∷◌, ◌++◌, ltb, if◌then◌else◌,
  arith, lt_or_ge, inl, inr,
}
use spr.Base.Word
use spr.Filesys.Utf8.{utf8_decode, decode_more, decode_tail}

abbrev two_bytes : ℕ → List ℕ
two_bytes c = (0xc0 + c / 64) ∷ (0x80 + c % 64) ∷ []

abbrev three_bytes : ℕ → List ℕ
three_bytes c = (0xe0 + c / 4096) ∷ (0x80 + c / 64 % 64) ∷ (0x80 + c % 64) ∷ []

abbrev four_bytes : ℕ → List ℕ
four_bytes c =
    (0xf0 + c / 262144) ∷ (0x80 + c / 4096 % 64) ∷ (0x80 + c / 64 % 64) ∷ (0x80 + c % 64) ∷ []

-- The bytes of a code point below 0x110000.
abbrev pub utf8_encode : ℕ → List ℕ
utf8_encode c =
    if ltb c 0x80
    then c ∷ []
    else if ltb c 0x800
    then two_bytes c
    else if ltb c 0x10000
    then three_bytes c
    else four_bytes c

two_lem :
    (c : ℕ) (rest : List ℕ)
    → 0x80 ≤ c
    → c < 0x800
    → utf8_decode (two_bytes c ++ rest) 4 ≡ some (c, rest)
unfolding utf8_decode decode_more decode_tail Word.sub
two_lem c rest h k = ground arith

three_lem :
    (c : ℕ) (rest : List ℕ)
    → 0x800 ≤ c
    → c < 0x10000
    → utf8_decode (three_bytes c ++ rest) 4 ≡ some (c, rest)
unfolding utf8_decode decode_more decode_tail Word.sub
three_lem c rest h k = ground arith

four_lem :
    (c : ℕ) (rest : List ℕ)
    → 0x10000 ≤ c
    → c < 0x110000
    → utf8_decode (four_bytes c ++ rest) 4 ≡ some (c, rest)
unfolding utf8_decode decode_more decode_tail Word.sub
four_lem c rest h k = ground arith

-- What `spr_utf8_decode` reads from the encoding of a character that is not ASCII, with four bytes to
-- read, is the character, and the bytes behind are left.
pub utf8_decode-utf8_encode :
    (c : ℕ) (rest : List ℕ)
    → 0x80 ≤ c
    → c < 0x110000
    → utf8_decode (utf8_encode c ++ rest) 4 ≡ some (c, rest)
utf8_decode-utf8_encode c rest h k =
    let wide : ltb c 0x80 ≡ false = ground arith in
    elim (lt_or_ge c 0x800) [
      | inl l ↦ let t : ltb c 0x800 ≡ true = ground arith in rw (wide, t) (two_lem c rest h l)
      | inr g ↦
          let t : ltb c 0x800 ≡ false = ground arith in
          elim (lt_or_ge c 0x10000) [
            | inl l ↦
                let u : ltb c 0x10000 ≡ true = ground arith in
                rw (wide, t, u) (three_lem c rest g l)
            | inr g' ↦
                let u : ltb c 0x10000 ≡ false = ground arith in
                rw (wide, t, u) (four_lem c rest g' k)
          ]
    ]
