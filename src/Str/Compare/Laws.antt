-- ===== src/Str/Compare/Laws.antt =====
-- Comparison without regard to case in lib/spr_string.c.
use spr.Base.{
  ℕ, zero, suc, ◌+◌, ◌<◌, ◌≡◌, refl, sym, ap, ◌∙◌, ◌&&◌, Bool, true, false, Option, some, List, [],
  ◌∷◌, ◌++◌, take, leb, ◌==◌, if◌then◌else◌, arith, Bool-cases, inl, inr,
}
use spr.Base.Int.{ℤ, pos, eq_ℤ}
use mathlib.Core.Option
use spr.Base.Word
use spr.Base.Word.{word}
use spr.Str.{IsText}
use spr.Str.Compare.{char_word, to_lower, difference, strcasecmp, strncasecmp}

-- The byte in lower case.
abbrev pub lower : ℕ → ℕ
lower b = if leb 65 b && leb b 90 then b + 32 else b

-- The byte, sign-extended, in lower case.
abbrev folded : ℕ → ℕ
folded b = to_lower (char_word b)

folded_lem : (b : ℕ) → b < 256 → folded b ≡ char_word (lower b)
folded_lem b h = ground arith

folded_bound : (b : ℕ) → b < 256 → folded b < word
folded_bound b h = ground arith

folded_test : (a b : ℕ) → a < 256 → b < 256 → (folded a == folded b) ≡ (lower a == lower b)
folded_test a b h k = ground arith

folded_not_zero : (a : ℕ) → 0 < a → a < 256 → (folded a == 0) ≡ false
folded_not_zero a h k = ground arith

difference_zero :
    (a b : ℕ) → a < word → b < word → (a == b) ≡ false → eq_ℤ (difference a b) (pos 0) ≡ false
unfolding Word.sub
difference_zero a b h k e = ground arith

-- Whether two texts are the same but for the case of their letters.
abbrev pub ignoring_case : List ℕ → List ℕ → Bool
ignoring_case [] [] = true
ignoring_case [] (b ∷ t) = false
ignoring_case (a ∷ s) [] = false
ignoring_case (a ∷ s) (b ∷ t) = (lower a == lower b) && ignoring_case s t

abbrev pub is_zero : Option ℤ → Option Bool
is_zero = Option.map (λ r. eq_ℤ r (pos 0))

-- One step at which the bytes differ.
mismatch :
    (next : Option ℤ) (a b : ℕ)
    → a < 256
    → b < 256
    → (folded a == folded b) ≡ false
    → is_zero (if folded a == folded b then next else some (difference (folded a) (folded b)))
      ≡ some false
mismatch next a b h k e =
    rw (e) (ap some (difference_zero (folded a) (folded b) (folded_bound a h) (folded_bound b k) e))

zero_folded : (b : ℕ) → 0 < b → b < 256 → (folded 0 == folded b) ≡ false
zero_folded b h k = ground arith

-- `spr_strcasecmp` of terminated texts reads no further than their terminators, and is zero
-- exactly if the texts are the same but for the case of the letters A to Z.
pub strcasecmp_lem :
    (s t rest rest' : List ℕ)
    → IsText s
    → IsText t
    → is_zero (strcasecmp (s ++ 0 ∷ rest) (t ++ 0 ∷ rest')) ≡ some (ignoring_case s t)
unfolding strcasecmp
strcasecmp_lem [] [] rest rest' hs ht = refl
strcasecmp_lem [] (b ∷ t) rest rest' hs ht =
    mismatch _ 0 b (omega arith) ht.0.1 (zero_folded b ht.0.0 ht.0.1)
strcasecmp_lem (a ∷ s) [] rest rest' hs ht =
    mismatch _ a 0 hs.0.1 (omega arith) (folded_not_zero a hs.0.0 hs.0.1)
strcasecmp_lem (a ∷ s) (b ∷ t) rest rest' hs ht =
    let ih = strcasecmp_lem s t rest rest' hs.1 ht.1 in
    elim (Bool-cases (folded a == folded b)) [
      | inl e ↦
          let f = sym (folded_test a b hs.0.1 ht.0.1) ∙ e in
          rw (e, f, folded_not_zero a hs.0.0 hs.0.1) ih
      | inr e ↦
          let f = sym (folded_test a b hs.0.1 ht.0.1) ∙ e in rw (f) (mismatch _ a b hs.0.1 ht.0.1 e)
    ]

-- `spr_strncasecmp` with a limit of `n` bytes gives the result of `spr_strcasecmp` on the two
-- texts cut off behind `n` bytes.
pub strncasecmp_lem :
    (s t rest rest' : List ℕ) (n : ℕ)
    → IsText s
    → IsText t
    → strncasecmp (s ++ 0 ∷ rest) (t ++ 0 ∷ rest') n
      ≡ strcasecmp (take n s ++ 0 ∷ []) (take n t ++ 0 ∷ [])
unfolding strcasecmp strncasecmp
strncasecmp_lem s t rest rest' zero hs ht = refl
strncasecmp_lem [] [] rest rest' (suc n) hs ht = refl
strncasecmp_lem [] (b ∷ t) rest rest' (suc n) hs ht = rw (zero_folded b ht.0.0 ht.0.1) refl
strncasecmp_lem (a ∷ s) [] rest rest' (suc n) hs ht = rw (folded_not_zero a hs.0.0 hs.0.1) refl
strncasecmp_lem (a ∷ s) (b ∷ t) rest rest' (suc n) hs ht =
    let ih = strncasecmp_lem s t rest rest' n hs.1 ht.1 in rw (ih) refl
