-- ===== src/Str/Search/Laws.antt =====
-- Searches in C strings of lib/spr_string.c.
use spr.Base.{
  ℕ, zero, suc, ◌+◌, ◌<◌, ◌≡◌, refl, ap, ◌∙◌, Option, none, some, List, [], ◌∷◌, ◌++◌, length,
  length-append, take, get_elem?, if◌then◌else◌, arith, Bool-cases, inl, inr,
}
use spr.Base.Int.{ℤ, eq_ℤ}
use spr.Str.{IsText, char_value}
use spr.Str.Length.Laws.{strlen_lem}
use spr.Str.Search.{strchr_from, strchr, is_at, strrchr_from, strrchr}

-- the first index, counted from `i`, at which the character stands
abbrev pub first_index : ℤ → ℕ → List ℕ → Option ℕ
first_index c i [] = none
first_index c i (b ∷ bs) =
    let rest = first_index c (i + 1) bs in if eq_ℤ (char_value b) c then some i else rest

-- the last one, if there is one, or else `found`
abbrev pub last_index : ℤ → ℕ → Option ℕ → List ℕ → Option ℕ
last_index c i found [] = found
last_index c i found (b ∷ bs) =
    last_index c (i + 1) (if eq_ℤ (char_value b) c then some i else found) bs

strchr_from_lem :
    (c : ℤ) (i : ℕ) (text rest : List ℕ)
    → strchr_from c i (length text) (text ++ rest) ≡ some (first_index c i text)
unfolding strchr_from
strchr_from_lem c i [] rest = refl
strchr_from_lem c i (b ∷ bs) rest =
    let ih = strchr_from_lem c (i + 1) bs rest in
    elim (Bool-cases (eq_ℤ (char_value b) c)) [ inl e ↦ rw (e) refl | inr e ↦ rw (e) ih ]

-- `spr_strchr` finds the first place of the character in a terminated text, its terminator left
-- out, or is NULL if there is none.
pub strchr_lem :
    (c : ℤ) (text rest : List ℕ)
    → IsText text
    → strchr (text ++ 0 ∷ rest) c ≡ some (first_index c 0 text)
unfolding strchr
strchr_lem c text rest h = rw (strchr, strlen_lem text rest h) (strchr_from_lem c 0 text (0 ∷ rest))

last_index-append :
    (c : ℤ) (i : ℕ) (found : Option ℕ) (xs : List ℕ) (b : ℕ)
    → last_index c i found (xs ++ b ∷ [])
      ≡ (if eq_ℤ (char_value b) c then some (i + length xs) else last_index c i found xs)
last_index-append c i found [] b = elim (Bool-cases (eq_ℤ (char_value b) c)) [
  | inl e ↦ rw (e) (ap some (omega arith))
  | inr e ↦ rw (e) refl
]
last_index-append c i found (x ∷ xs) b =
    let next = if eq_ℤ (char_value x) c then some i else found in
    let ih = last_index-append c (i + 1) next xs b in
    let shift : i + 1 + length xs ≡ i + length (x ∷ xs) = omega arith in
    ih ∙ ap (λ k. if eq_ℤ (char_value b) c then some k else last_index c (i + 1) next xs) shift

-- An index in bounds cuts a list at an element.
take_split :
    (i : ℕ) (xs : List ℕ)
    → i < length xs
    → (b : ℕ) × (get_elem? xs i ≡ some b)
      × (take (suc i) xs ≡ take i xs ++ b ∷ [])
      × (length (take i xs) ≡ i)
take_split i [] h = absurd (omega arith)
take_split zero (x ∷ xs) h = (x, refl, refl, refl)
take_split (suc i) (x ∷ xs) h =
    let (b, e, f, g) = take_split i xs (omega arith) in (b, e, ap (λ l. x ∷ l) f, ap suc g)

is_at_lem :
    (c : ℤ) (i : ℕ) (str : List ℕ) (b : ℕ)
    → get_elem? str i ≡ some b
    → is_at str c i ≡ some (eq_ℤ (char_value b) c)
unfolding is_at
is_at_lem c i str b e = rw (is_at, e) refl

strrchr_from_lem :
    (c : ℤ) (i : ℕ) (str : List ℕ)
    → i < length str
    → strrchr_from str c i ≡ some (last_index c 0 none (take (suc i) str))
unfolding strrchr_from is_at
strrchr_from_lem c zero [] h = absurd (omega arith)
strrchr_from_lem c zero (x ∷ xs) h = refl
strrchr_from_lem c (suc i) str h =
    let (b, e, f, g) = take_split (suc i) str h in
    let ih = strrchr_from_lem c i str (omega arith) in
    let step = ap (last_index c 0 none) f ∙ last_index-append c 0 none (take (suc i) str) b in
    let at = is_at_lem c (suc i) str b e in
    let n : 0 + length (take (suc i) str) ≡ suc i = omega (arith, g) in
    elim (Bool-cases (eq_ℤ (char_value b) c)) [
      | inl t ↦ rw (strrchr_from, at, step, n, t) refl
      | inr t ↦ rw (strrchr_from, at, step, n, t) ih
    ]

take-append : (xs rest : List ℕ) (b : ℕ) → take (suc (length xs)) (xs ++ b ∷ rest) ≡ xs ++ b ∷ []
take-append [] rest b = refl
take-append (x ∷ xs) rest b = ap (λ l. x ∷ l) (take-append xs rest b)

-- `spr_strrchr` finds the last place of the character in a terminated text, its terminator
-- included, or is NULL if there is none.
pub strrchr_lem :
    (c : ℤ) (text rest : List ℕ)
    → IsText text
    → strrchr (text ++ 0 ∷ rest) c ≡ some (last_index c 0 none (text ++ 0 ∷ []))
unfolding strrchr
strrchr_lem c text rest h =
    let bound = length-append text (0 ∷ rest) in
    let e = strrchr_from_lem c (length text) (text ++ 0 ∷ rest) (omega (arith, bound)) in
    rw (strrchr, strlen_lem text rest h)
      (e ∙ ap (λ l. some (last_index c 0 none l)) (take-append text rest 0))
