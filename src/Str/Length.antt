-- ===== src/Str/Length.antt =====
-- `spr_strlen` and `spr_strnlen` of lib/spr_string.c.
pub mod Laws
use spr.Base.{ℕ, zero, suc, ◌+◌, Option, none, some, List, [], ◌∷◌, ◌==◌, if◌then◌else◌}

-- The loop of `spr_strlen` from index `i` on, with the bytes that are left to read.
unfoldable pub strlen_from : ℕ → List ℕ → Option ℕ
strlen_from i [] = none
strlen_from i (c ∷ cs) = let rest = strlen_from (i + 1) cs in if c == 0 then some i else rest

unfoldable pub strlen : List ℕ → Option ℕ
unfolding strlen_from
strlen str = strlen_from 0 str

-- The loop of `spr_strnlen` from index `i` on, with `k` rounds left.
unfoldable pub strnlen_from : (i k : ℕ) → List ℕ → Option ℕ
strnlen_from i zero str = some i
strnlen_from i (suc k) [] = none
strnlen_from i (suc k) (c ∷ cs) =
    let rest = strnlen_from (i + 1) k cs in if c == 0 then some i else rest

unfoldable pub strnlen : List ℕ → ℕ → Option ℕ
unfolding strnlen_from
strnlen str n = strnlen_from 0 n str
