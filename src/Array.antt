-- ===== src/Array.antt =====
-- lib/spr_array.c: arrays of a fixed number of elements in a pool. An element is the list of the bytes
-- that can be read from its address on.
pub mod Overwritten
mod Tests
use spr.Base.{ℕ, ◌+◌, List, leb, ◌==◌, if◌then◌else◌}
use spr.Base.Int.{ℤ, negsuc}
use spr.Base.Word
use spr.Memory
use spr.Mutex.{success}
use spr.Pool.{Pool}
use spr.Pool.Alloc.{pcalloc}
use spr.Sys.{System, Cmd, pure, fault_cmd, ◌>>=◌, ◌>>◌}

-- `spr_array_s`
pub record SprArray : Type 0 where
  pub start : ℕ
  pub size : ℕ
  pub n_total : ℕ
  pub n_current : ℕ

-- `sizeof(spr_array_t)`
abbrev pub sizeof_array : ℕ
sizeof_array = 32

-- `SPR_FAILED`
abbrev pub failure : ℤ
failure = negsuc 0

-- `spr_array_create`: the fields of an array that is NULL are written all the same.
unfoldable pub array_create : System → Pool → (size n : ℕ) → Cmd (SprArray × Pool)
unfolding Word.mul
array_create sys pool size n = do
  (array, pool1) ← pcalloc sys pool sizeof_array
  (start, pool2) ← pcalloc sys pool1 (Word.mul size n)
  if array == 0
      then fault_cmd
      else pure (record { start = start; size = size; n_total = n; n_current = 0 }, pool2)

-- `spr_array_push`
unfoldable pub array_push : SprArray → List ℕ → Cmd (ℤ × SprArray)
unfolding Word.add Word.mul Memory.memmove
array_push a item = if leb a.n_total a.n_current then pure (failure, a) else do
  let mem = Word.add a.start (Word.mul a.n_current a.size)
  Memory.memmove mem item a.size
  pure (success, record a { size = Word.add a.size 1 })

-- `spr_array_clear`
unfoldable pub array_clear : SprArray → SprArray
array_clear a = record a { n_current = 0; start = 0 }
