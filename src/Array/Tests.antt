-- ===== src/Array/Tests.antt =====
-- The theorem on arrays at an array of three elements of two bytes.
use spr.Base.{◌≡◌, refl, [], ◌∷◌, take, arith}
use spr.Memory.Contents.{Reads}
use spr.Mutex.{success}
use spr.Sys.{Returns, ◌>>=◌}
use spr.Example.{world}
use spr.Array.{SprArray, array_push}
use spr.Array.Overwritten.{array_push-overwritten}

abbrev pairs : SprArray
pairs = record { start = 9000; size = 2; n_total = 3; n_current = 0 }

array_push-overwritten_example :
    Returns
      (λ r w'.
        (r.0 ≡ success)
        × (r.1.n_current ≡ 0)
        × (r.1.size ≡ 4)
        × Reads w'.log 9000 (take 3 (4 ∷ 5 ∷ 6 ∷ [])))
      ((array_push pairs (1 ∷ 2 ∷ []) >>= λ r. array_push r.1 (4 ∷ 5 ∷ 6 ∷ [])) world)
array_push-overwritten_example =
    array_push-overwritten pairs (1 ∷ 2 ∷ []) (4 ∷ 5 ∷ 6 ∷ []) world refl (omega arith)
      (omega arith) (omega arith) (omega arith) (omega arith)
