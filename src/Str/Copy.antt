-- ===== src/Str/Copy.antt =====
-- `spr_pstrdup`, `spr_pstrndup` and `spr_pstrcat1` of lib/spr_string.c: strings made in a pool.
pub mod Wrote
pub mod Laws
use spr.Base.{ℕ, ◌+◌, Option, none, some, List, [], ◌∷◌, ◌==◌, if◌then◌else◌}
use spr.Base.Word
use spr.Memory
use spr.Pool.{Pool}
use spr.Pool.Alloc.{palloc}
use spr.Str.Length.{strlen}
use spr.Sys.{System, Cmd, pure, fault_cmd, ◌>>=◌, ◌>>◌}

-- `spr_strlen` as a step of a program: a read out of bounds is a fault
unfoldable pub measured : List ℕ → Cmd ℕ
measured str = elim (strlen str) [ none ↦ fault_cmd | some n ↦ pure n ]

-- The first loop of `spr_pstrcat1`: the length of all arguments, added to `len`.
unfoldable pub total_length : ℕ → List (List ℕ) → Cmd ℕ
unfolding measured Word.add
total_length len [] = pure len
total_length len (arg ∷ args) = do n ← measured arg; total_length (Word.add len n) args

-- The second loop: each argument is copied to `at`, which moves behind it.
unfoldable pub copy_all : ℕ → List (List ℕ) → Cmd (Unit {0})
unfolding measured Word.add Memory.memmove
copy_all at [] = pure tt
copy_all at (arg ∷ args) = do
  len ← measured arg
  Memory.memmove at arg len
  copy_all (Word.add at len) args

-- `n` bytes, and the terminator behind them
unfoldable pub terminated : ℕ → List ℕ → ℕ → Cmd (Unit {0})
unfolding Word.add Memory.memmove
terminated mem str n = Memory.memmove mem str n >> Memory.memmove (Word.add mem n) (0 ∷ []) 1

module _ (sys : System) where
  unfoldable pub pstrdup : Pool → List ℕ → Cmd (ℕ × Pool)
  unfolding measured Word.add Memory.memmove
  pstrdup pool str = do
    n ← measured str
    let len = Word.add n 1
    (mem, pool') ← palloc sys pool len
    if mem == 0 then pure (0, pool') else do Memory.memmove mem str len; pure (mem, pool')

  unfoldable pub pstrndup : Pool → List ℕ → ℕ → Cmd (ℕ × Pool)
  unfolding terminated Word.add
  pstrndup pool str n = do
    (mem, pool') ← palloc sys pool (Word.add n 1)
    if mem == 0 then pure (0, pool') else do terminated mem str n; pure (mem, pool')

  unfoldable pub pstrcat : Pool → List (List ℕ) → Cmd (ℕ × Pool)
  unfolding total_length copy_all Word.add Memory.memmove
  pstrcat pool args = do
    len ← total_length 0 args
    (mem, pool') ← palloc sys pool (Word.add len 1)
    if mem == 0
        then pure (0, pool')
        else do Memory.memmove (Word.add mem len) (0 ∷ []) 1; copy_all mem args; pure (mem, pool')
