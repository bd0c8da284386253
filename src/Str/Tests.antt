-- ===== src/Str/Tests.antt =====
-- The theorems on strings at concrete texts, and at the pool of Example.

use spr.Base.{ℕ, ◌≡◌, true, some, List, [], ◌∷◌, ◌++◌, arith}
use spr.Base.Int.{pos}
use spr.Sys.{Returns}
use spr.Str.Number.{atoi, atosz}
use spr.Str.Number.Laws.{atoi_lem}
use spr.Str.Compare.{strcasecmp, strncasecmp}
use spr.Str.Compare.Laws.{is_zero, strcasecmp_lem, strncasecmp_lem}
use spr.Str.Search.{strchr}
use spr.Str.Search.Laws.{strchr_lem}
use spr.Str.Copy.{pstrdup, pstrcat}
use spr.Str.Copy.Wrote.{c_string}
use spr.Str.Copy.Laws.{MadeString, pstrdup-MadeString, pstrcat-MadeString}
use spr.Example.{rising, world, pool, rising-IsAllocator, pool-IsPool, pool-Owns}

-- "42"
abbrev forty_two : List ℕ
forty_two = 52 ∷ 50 ∷ []

-- "Spr" and "sPR"
abbrev name : List ℕ
name = 83 ∷ 112 ∷ 114 ∷ []

abbrev other_name : List ℕ
other_name = 115 ∷ 80 ∷ 82 ∷ []

atoi_lem_example :
    (atoi (forty_two ++ 0 ∷ []) 2 ≡ some (pos 42)) × (atosz (forty_two ++ 0 ∷ []) 2 ≡ some (pos 42))
atoi_lem_example = atoi_lem (forty_two ++ 0 ∷ []) 2 (omega arith)

strcasecmp_lem_example :
    is_zero (strcasecmp (name ++ 0 ∷ []) (other_name ++ 0 ∷ 9 ∷ [])) ≡ some true
strcasecmp_lem_example = strcasecmp_lem name other_name [] (9 ∷ []) (omega arith) (omega arith)

strncasecmp_lem_example :
    strncasecmp (name ++ 0 ∷ []) (other_name ++ 0 ∷ []) 2
    ≡ strcasecmp (83 ∷ 112 ∷ 0 ∷ []) (115 ∷ 80 ∷ 0 ∷ [])
strncasecmp_lem_example = strncasecmp_lem name other_name [] [] 2 (omega arith) (omega arith)

strchr_lem_example : strchr (name ++ 0 ∷ []) (pos 112) ≡ some (some 1)
strchr_lem_example = strchr_lem (pos 112) name [] (omega arith)

pstrdup-MadeString_example :
    Returns (MadeString pool (c_string name)) (pstrdup rising pool (name ++ 0 ∷ 9 ∷ []) world)
pstrdup-MadeString_example =
    pstrdup-MadeString rising rising-IsAllocator name (9 ∷ []) (omega arith) (omega arith) pool
      world pool-IsPool pool-Owns

pstrcat-MadeString_example :
    Returns
      (MadeString pool (c_string (name ++ forty_two ++ [])))
      (pstrcat rising pool (c_string name ∷ c_string forty_two ∷ []) world)
pstrcat-MadeString_example =
    pstrcat-MadeString rising rising-IsAllocator (name ∷ forty_two ∷ []) (omega arith) (omega arith)
      pool world pool-IsPool pool-Owns
