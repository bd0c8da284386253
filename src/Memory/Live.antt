-- ===== src/Memory/Live.antt =====
-- The addresses of the blocks that were got from `malloc` and not given back, and what the C
-- library promises of `malloc`.
use spr.Base.{ℕ, ◌+◌, ◌-◌, ◌%◌, ◌<◌, ◌≡◌, ◌≢◌, ◌&&◌, List, [], ◌∷◌, leb, ltb, ◌==◌, if◌then◌else◌}
use spr.Base.Word.{word}
use spr.Sys.{Event, allocated, released, handled, zeroed, stored, answered, System}

-- 1 if `a` lies among the `n` addresses from `start` on, else 0
abbrev pub within : (a start n : ℕ) → ℕ
within a start n = if leb start a && ltb a (start + n) then 1 else 0

-- the size of the latest block at an address
abbrev pub block_size : ℕ → List Event → ℕ
block_size m [] = 0
block_size m (allocated size mem ∷ log) = if mem == m then size else block_size m log
block_size m (released _ ∷ log) = block_size m log
block_size m (handled _ _ ∷ log) = block_size m log
block_size m (zeroed _ _ ∷ log) = block_size m log
block_size m (stored _ _ ∷ log) = block_size m log
block_size m (answered _ _ ∷ log) = block_size m log

-- How many live blocks hold the address.
abbrev pub live : ℕ → List Event → ℕ
live a [] = 0
live a (allocated size mem ∷ log) = (if mem == 0 then 0 else within a mem size) + live a log
live a (released mem ∷ log) =
    live a log - (if mem == 0 then 0 else within a mem (block_size mem log))
live a (handled _ _ ∷ log) = live a log
live a (zeroed _ _ ∷ log) = live a log
live a (stored _ _ ∷ log) = live a log
live a (answered _ _ ∷ log) = live a log

-- `malloc` answers NULL, or a block in the address space, aligned for any object, no byte of which
-- belongs to a live block.
pub record IsAllocator (sys : System) : Type 0 where
  pub bounded :
      (log : List Event) (size : ℕ) → sys.malloc log size ≢ 0 → sys.malloc log size + size < word
  pub aligned : (log : List Event) (size : ℕ) → sys.malloc log size % 16 ≡ 0
  pub fresh :
      (log : List Event) (size a : ℕ)
      → sys.malloc log size ≢ 0
      → within a (sys.malloc log size) size ≡ 1
      → live a log ≡ 0
