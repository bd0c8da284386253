-- ===== src/Pool/Size.antt =====
-- `spr_align_allocation` and `spr_get_npages` of lib/memory/spr_pool.c.
pub mod Bounds
use Prim.Native.Nat.{bit_and}
use spr.Base.{ℕ, ◌+◌, ◌-◌, ◌/◌, ltb, if◌then◌else◌}
use spr.Base.Word
use spr.Base.Word.{word}
use spr.Memory.{page_size}
use spr.Pool.{align_size, min_alloc, sizeof_memnode}

-- `spr_align(p, SPR_ALIGN_SIZE)`: the mask is the complement of 7 in 64 bits
unfoldable pub align_default : ℕ → ℕ
unfolding Word.add
align_default p = bit_and (Word.add p (align_size - 1)) (word - align_size)

unfoldable pub align_allocation : ℕ → ℕ
align_allocation size =
    let aligned = align_default size in
    if ltb aligned size then 0 else if ltb aligned min_alloc then min_alloc else aligned

unfoldable pub get_npages : ℕ → ℕ
unfolding Word.add
get_npages size =
    let total_size = Word.add size sizeof_memnode in
    if ltb total_size page_size then 1 else total_size / page_size + 1
