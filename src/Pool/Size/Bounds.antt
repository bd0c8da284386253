-- ===== src/Pool/Size/Bounds.antt =====
-- What the sizes of lib/memory/spr_pool.c come to, and where they wrap.
use spr.Base.{ℕ, ◌+◌, ◌-◌, ◌*◌, ◌%◌, ◌≤◌, ◌<◌, ◌≡◌, ◌⊎◌, arith}
use spr.Base.Word
use spr.Base.Word.{word}
use spr.Base.Bits.{bit_and-align}
use spr.Memory.{page_size}
use spr.Pool.{sizeof_memnode, min_alloc}
use spr.Pool.Size.{align_default, align_allocation, get_npages}

pub align_default_lem : (p : ℕ) → align_default p ≡ Word.add p 7 - Word.add p 7 % 8
unfolding align_default Word.add
align_default_lem p = bit_and-align (Word.add p 7) (omega arith)

-- A request that does not wrap is rounded up to a multiple of eight, and to 16 bytes at least.
pub align_allocation_fits :
    (size : ℕ)
    → size + 7 < word
    → (size ≤ align_allocation size)
      × (min_alloc ≤ align_allocation size)
      × (align_allocation size % 8 ≡ 0)
      × ((align_allocation size ≤ size + 7) ⊎ (align_allocation size ≡ min_alloc))
      × (align_allocation size ≤ word - 8)
unfolding align_allocation Word.add
align_allocation_fits size h = ground (arith, align_default_lem size)

-- A request within seven bytes of the address space wraps, and is refused by the result 0.
pub align_allocation_wraps : (size : ℕ) → size < word → word ≤ size + 7 → align_allocation size ≡ 0
unfolding align_allocation Word.add
align_allocation_wraps size h w = ground (arith, align_default_lem size)

-- Without overflow, the pages hold the request and the node's header, and no page too many.
pub get_npages_fits :
    (size : ℕ)
    → size + sizeof_memnode < word
    → (size + sizeof_memnode < get_npages size * page_size)
      × (get_npages size * page_size ≤ size + sizeof_memnode + page_size)
      × (1 ≤ get_npages size)
unfolding get_npages Word.add
get_npages_fits size h = ground arith

-- Within 48 bytes of the address space the sum wraps, and one page is thought to be enough.
pub get_npages_wraps : (size : ℕ) → size < word → word ≤ size + sizeof_memnode → get_npages size ≡ 1
unfolding get_npages Word.add
get_npages_wraps size h w = ground arith
