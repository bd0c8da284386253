-- ===== src/Str/Length/Laws.antt =====
-- Lengths of C strings in lib/spr_string.c.
use Prim.Native.Nat.{min}
use spr.Base.{ℕ, zero, suc, ◌+◌, ◌≤◌, ◌≡◌, ◌∙◌, ap, some, List, [], ◌∷◌, ◌++◌, length, take, arith}
use spr.Str.{IsText}
use spr.Str.Length.{strlen_from, strlen, strnlen_from, strnlen}

strlen_from_lem :
    (i : ℕ) (text rest : List ℕ)
    → IsText text
    → strlen_from i (text ++ 0 ∷ rest) ≡ some (i + length text)
unfolding strlen_from
strlen_from_lem i [] rest h = ground arith
strlen_from_lem i (c ∷ cs) rest h =
    let ih = strlen_from_lem (i + 1) cs rest h.1 in let nz = h.0.0 in grind (arith, ih)

-- `spr_strlen` of a terminated text is its length.
pub strlen_lem : (text rest : List ℕ) → IsText text → strlen (text ++ 0 ∷ rest) ≡ some (length text)
unfolding strlen
strlen_lem text rest h = strlen_from_lem 0 text rest h ∙ ap some (omega arith)

strnlen_from_lem :
    (i k : ℕ) (text rest : List ℕ)
    → IsText text
    → strnlen_from i k (text ++ 0 ∷ rest) ≡ some (i + min (length text) k)
unfolding strnlen_from
strnlen_from_lem i zero text rest h = ap some (omega arith)
strnlen_from_lem i (suc k) [] rest h = ap some (omega arith)
strnlen_from_lem i (suc k) (c ∷ cs) rest h =
    let ih = strnlen_from_lem (i + 1) k cs rest h.1 in let nz = h.0.0 in grind (arith, ih)

-- Without a terminator among the first `n` bytes nothing behind them is read.
strnlen_from_full :
    (i k : ℕ) (str : List ℕ)
    → k ≤ length str
    → IsText (take k str)
    → strnlen_from i k str ≡ some (i + k)
unfolding strnlen_from
strnlen_from_full i zero str h t = ap some (omega arith)
strnlen_from_full i (suc k) [] h t = absurd (omega arith)
strnlen_from_full i (suc k) (c ∷ cs) h t =
    let ih = strnlen_from_full (i + 1) k cs (omega arith) t.1 in let nz = t.0.0 in grind (arith, ih)

-- `spr_strnlen` of a terminated text reads no further than its terminator, and is the smaller one
-- of its length and the limit.
pub strnlen_lem :
    (text rest : List ℕ) (n : ℕ)
    → IsText text
    → strnlen (text ++ 0 ∷ rest) n ≡ some (min (length text) n)
unfolding strnlen
strnlen_lem text rest n h = strnlen_from_lem 0 n text rest h ∙ ap some (omega arith)

pub strnlen_full :
    (str : List ℕ) (n : ℕ) → n ≤ length str → IsText (take n str) → strnlen str n ≡ some n
unfolding strnlen
strnlen_full str n h t = strnlen_from_full 0 n str h t ∙ ap some (omega arith)
