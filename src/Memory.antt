-- ===== src/Memory.antt =====
-- lib/memory/spr_memory.c: the counting allocator over `malloc` and `free`, and the page size.
pub mod Live
pub mod Contents
use spr.Base.{ℕ, List, length, take, leb, if◌then◌else◌, ◌==◌}
use spr.Base.Word
use spr.Sys.{
  allocated, released, zeroed, stored, fault_cmd, System, Cmd, ok, pure, ◌>>=◌, ◌>>◌, record_event,
}

-- `spr_get_page_size` where `_SC_PAGESIZE` is not available, and on x86-64
abbrev pub page_size : ℕ
page_size = 4096

-- `spr_memzero`
unfoldable pub memzero : ℕ → ℕ → Cmd (Unit {0})
memzero mem n w = ok tt (record_event (zeroed mem n) w)

-- `spr_memmove` of `n` bytes from a source of which these can be read
unfoldable pub memmove : ℕ → List ℕ → ℕ → Cmd (Unit {0})
memmove mem bytes n w =
    if leb n (length bytes) then ok tt (record_event (stored mem (take n bytes)) w) else fault_cmd w

module _ (sys : System) where
  -- `spr_malloc`: the counter grows by the size of each block that was got
  unfoldable pub malloc : ℕ → Cmd ℕ
  unfolding Word.add
  malloc size w =
      let mem = sys.malloc w.log size in
      let w' = record_event (allocated size mem) w in
      if mem == 0 then ok 0 w' else ok mem (record w' { counter = Word.add w'.counter size })

  -- `spr_calloc`
  unfoldable pub calloc : ℕ → Cmd ℕ
  calloc size = do mem ← malloc size; if mem == 0 then pure 0 else do memzero mem size; pure mem

-- `spr_free`
unfoldable pub free : ℕ → Cmd (Unit {0})
free mem w = ok tt (record_event (released mem) w)

-- `spr_get_memory_counter`
unfoldable pub get_memory_counter : Cmd ℕ
get_memory_counter w = ok w.counter w

-- `spr_explicit_memzero`; the barrier behind the write has no effect of its own
unfoldable pub explicit_memzero : ℕ → ℕ → Cmd (Unit {0})
unfolding memzero
explicit_memzero buf n = memzero buf n

-- `spr_get_page_size` with what `sysconf(_SC_PAGESIZE)` or `GetSystemInfo` answers
unfoldable pub get_page_size : (answer : ℕ) → ℕ
get_page_size answer = answer
