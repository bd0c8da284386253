-- ===== src/Str/Search.antt =====
-- `spr_strchr` and `spr_strrchr` of lib/spr_string.c. The result is the index of the byte pointed at,
-- or `none` for NULL, in an option that is `none` where the code reads out of bounds.
pub mod Laws
use spr.Base.{ℕ, zero, suc, ◌+◌, Bool, Option, none, some, List, [], ◌∷◌, get_elem?, if◌then◌else◌}
use spr.Base.Int.{ℤ, eq_ℤ}
use spr.Str.{char_value}
use spr.Str.Length.{strlen}

-- The loop of `spr_strchr` from index `i` on, with `k` rounds left.
unfoldable pub strchr_from : ℤ → (i k : ℕ) → List ℕ → Option (Option ℕ)
strchr_from c i zero str = some none
strchr_from c i (suc k) [] = none
strchr_from c i (suc k) (b ∷ bs) =
    let rest = strchr_from c (i + 1) k bs in if eq_ℤ (char_value b) c then some (some i) else rest

unfoldable pub strchr : List ℕ → ℤ → Option (Option ℕ)
unfolding strchr_from
strchr str c = elim (strlen str) [ none ↦ none | some len ↦ strchr_from c 0 len str ]

-- The test `str[i] == c`.
unfoldable pub is_at : List ℕ → ℤ → ℕ → Option Bool
is_at str c i = elim (get_elem? str i) [ none ↦ none | some b ↦ some (eq_ℤ (char_value b) c) ]

-- The loop of `spr_strrchr`, from index `i` down to 0.
unfoldable pub strrchr_from : List ℕ → ℤ → ℕ → Option (Option ℕ)
unfolding is_at
strrchr_from str c zero = elim (is_at str c zero) [
  | none ↦ none
  | some found ↦ some (if found then some zero else none)
]
strrchr_from str c (suc i) =
    let rest = strrchr_from str c i in
    elim (is_at str c (suc i)) [
      | none ↦ none
      | some found ↦ if found then some (some (suc i)) else rest
    ]

unfoldable pub strrchr : List ℕ → ℤ → Option (Option ℕ)
unfolding strrchr_from
strrchr str c = elim (strlen str) [ none ↦ none | some len ↦ strrchr_from str c len ]
