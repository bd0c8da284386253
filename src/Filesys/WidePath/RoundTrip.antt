-- ===== src/Filesys/WidePath/RoundTrip.antt =====
-- A path in UTF-8 becomes the same text in UTF-16.
use spr.Base.{
  ℕ, zero, suc, ◌+◌, ◌-◌, ◌/◌, ◌%◌, ◌≤◌, ◌<◌, ◌≡◌, refl, sym, ap, ◌∙◌, true, false, Option, some,
  List, [], ◌∷◌, ◌++◌, All, length, length-append, ltb, ◌==◌, if◌then◌else◌, arith, lt_or_ge, inl,
  inr,
}
use mathlib.Core.List.{append_assoc}
use spr.Filesys.Utf8.{utf8_decode}
use spr.Filesys.Utf8.RoundTrip.{utf8_encode, utf8_decode-utf8_encode}
use spr.Filesys.WidePath.{Wide, emit, surrogates, wchar_loop, path_to_wchar}

-- The units of a code point below 0x110000.
abbrev pub utf16_encode : ℕ → List ℕ
utf16_encode c = if ltb c 0x10000 then c ∷ [] else (0xd7c0 + c / 1024) ∷ (0xdc00 + c % 1024) ∷ []

surrogates_lem :
    (c : ℕ) → 0x10000 ≤ c → surrogates c ≡ (0xd7c0 + c / 1024) ∷ (0xdc00 + c % 1024) ∷ []
surrogates_lem c h =
    let high : 0xd800 + (c - 0x10000) / 1024 ≡ 0xd7c0 + c / 1024 = omega arith in
    let low : 0xdc00 + (c - 0x10000) % 1024 ≡ 0xdc00 + c % 1024 = omega arith in rw (high, low) refl

abbrev pub utf8 : List ℕ → List ℕ
utf8 [] = []
utf8 (c ∷ cs) = utf8_encode c ++ utf8 cs

abbrev pub utf16 : List ℕ → List ℕ
utf16 [] = []
utf16 (c ∷ cs) = utf16_encode c ++ utf16 cs

-- A character of the path.
abbrev pub IsCharacter : ℕ → Type 0
IsCharacter c = (0 < c) × (c < 0x110000)

-- The encoding of a character that is not ASCII begins with a byte that is not.
utf8_encode-lead :
    (c : ℕ) → 0x80 ≤ c → (b : ℕ) × (t : List ℕ) × (utf8_encode c ≡ b ∷ t) × (ltb b 0x80 ≡ false)
utf8_encode-lead c h =
    let wide : ltb c 0x80 ≡ false = ground arith in
    elim (lt_or_ge c 0x800) [
      | inl l ↦
          let t : ltb c 0x800 ≡ true = ground arith in
          let e : utf8_encode c ≡ (0xc0 + c / 64) ∷ (0x80 + c % 64) ∷ [] = rw (wide, t) refl in
          (_, _, e, ground arith)
      | inr g ↦
          let t : ltb c 0x800 ≡ false = ground arith in
          elim (lt_or_ge c 0x10000) [
            | inl l ↦
                let u : ltb c 0x10000 ≡ true = ground arith in
                let e : utf8_encode c
                    ≡ (0xe0 + c / 4096) ∷ (0x80 + c / 64 % 64) ∷ (0x80 + c % 64) ∷ [] =
                  rw (wide, t, u) refl in
                (_, _, e, ground arith)
            | inr g' ↦
                let u : ltb c 0x10000 ≡ false = ground arith in
                let e : utf8_encode c
                    ≡ (0xf0 + c / 262144)
                      ∷ (0x80 + c / 4096 % 64)
                      ∷ (0x80 + c / 64 % 64)
                      ∷ (0x80 + c % 64)
                      ∷ [] =
                  rw (wide, t, u) refl in
                (_, _, e, ground arith)
          ]
    ]

-- What the loop does with a character that it has decoded.
abbrev decoded : (k c : ℕ) → List ℕ → Option Wide
decoded k c rest =
    if ltb 0xffff c
    then emit (surrogates c) (wchar_loop k rest)
    else emit (c ∷ []) (wchar_loop (suc k) rest)

lead_round :
    (k c b : ℕ) (q rest : List ℕ)
    → c < 0x110000
    → ltb b 0x80 ≡ false
    → utf8_decode (b ∷ q) 4 ≡ some (c, rest)
    → wchar_loop (suc (suc k)) (b ∷ q) ≡ decoded k c rest
unfolding wchar_loop
lead_round k c b q rest l w e = let t : ltb 0x10ffff c ≡ false = ground arith in rw (w, e, t) refl

wide_round :
    (k c : ℕ) (rest : List ℕ)
    → 0x80 ≤ c
    → c < 0x110000
    → wchar_loop (suc (suc k)) (utf8_encode c ++ rest) ≡ decoded k c rest
wide_round k c rest h l =
    let (b, t, e, w) = utf8_encode-lead c h in
    let f : utf8_encode c ++ rest ≡ b ∷ (t ++ rest) = ap (λ x. x ++ rest) e in
    ap (wchar_loop (suc (suc k))) f
    ∙ lead_round k c b (t ++ rest) rest l w
        (ap (λ x. utf8_decode x 4) (sym f) ∙ utf8_decode-utf8_encode c rest h l)

ascii_round :
    (k c : ℕ) (p : List ℕ)
    → 0 < c
    → c < 0x80
    → wchar_loop (suc (suc k)) (c ∷ p) ≡ emit (c ∷ []) (wchar_loop (suc k) p)
unfolding wchar_loop
ascii_round k c p h l =
    let t : ltb c 0x80 ≡ true = ground arith in
    let z : (c == 0) ≡ false = ground arith in rw (t, z) refl

length-utf16_encode : (c : ℕ) → length (utf16_encode c) ≡ (if ltb c 0x10000 then 1 else 2)
length-utf16_encode c = ground arith

utf8-append :
    (c : ℕ) (cs tail : List ℕ) → utf8 (c ∷ cs) ++ tail ≡ utf8_encode c ++ (utf8 cs ++ tail)
utf8-append c cs tail = append_assoc (utf8_encode c) (utf8 cs) tail

-- The loop gives the units of the text and the terminator, where there is room for both.
wchar_loop-utf8 :
    (k : ℕ) (cs rest : List ℕ)
    → All IsCharacter cs
    → length (utf16 cs) < k
    → wchar_loop k (utf8 cs ++ 0 ∷ rest) ≡ some (true, utf16 cs ++ 0 ∷ [])
unfolding wchar_loop
wchar_loop-utf8 zero cs rest h f = absurd (omega arith)
wchar_loop-utf8 (suc zero) [] rest h f = refl
wchar_loop-utf8 (suc (suc k)) [] rest h f = refl
wchar_loop-utf8 (suc zero) (c ∷ cs) rest h f =
    let n = length-append (utf16_encode c) (utf16 cs) in
    absurd (ground (arith, n, f, length-utf16_encode c))
wchar_loop-utf8 (suc (suc k)) (c ∷ cs) rest h f =
    let n = length-append (utf16_encode c) (utf16 cs) in
    let pair = wchar_loop-utf8 k cs rest h.1 in
    let single = wchar_loop-utf8 (suc k) cs rest h.1 in
    let m = length-utf16_encode c in
    let tail = utf8 cs ++ 0 ∷ rest in
    let first = ap (wchar_loop (suc (suc k))) (utf8-append c cs (0 ∷ rest)) in
    elim (lt_or_ge c 0x80) [
      | inl l ↦
          let t : ltb c 0x80 ≡ true = ground arith in
          let u : ltb c 0x10000 ≡ true = ground arith in
          rw (t, u)
            (ascii_round k c tail h.0.0 l
              ∙ ap (emit (c ∷ [])) (single (ground (arith, f, n, m, l))))
      | inr g ↦ elim (lt_or_ge c 0x10000) [
        | inl l ↦
            let t : ltb 0xffff c ≡ false = ground arith in
            let u : ltb c 0x10000 ≡ true = ground arith in
            let more = single (ground (arith, f, n, m, l)) in
            first ∙ wide_round k c tail g h.0.1 ∙ rw (t, u) (ap (emit (c ∷ [])) more)
        | inr l ↦
            let t : ltb 0xffff c ≡ true = ground arith in
            let u : ltb c 0x10000 ≡ false = ground arith in
            let more = pair (ground (arith, f, n, m, l)) in
            first
            ∙ wide_round k c tail g h.0.1
            ∙ rw (t, u)
                (ap (emit (surrogates c)) more
                  ∙ ap (λ units. emit units (some (true, utf16 cs ++ 0 ∷ []))) (surrogates_lem c l))
      ]
    ]

-- `spr_path_to_wchar` of a path of characters from 1 to 0x10ffff in UTF-8, terminated, into a buffer
-- with room for its UTF-16 form and the terminator, returns the buffer with exactly those units.
pub path_to_wchar-utf8 :
    (outlen : ℕ) (cs rest : List ℕ)
    → All IsCharacter cs
    → length (utf16 cs) < outlen
    → path_to_wchar outlen (utf8 cs ++ 0 ∷ rest) ≡ some (true, utf16 cs ++ 0 ∷ [])
unfolding path_to_wchar
path_to_wchar-utf8 outlen cs rest h f = wchar_loop-utf8 outlen cs rest h f
