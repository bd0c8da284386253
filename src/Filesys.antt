-- ===== src/Filesys.antt =====
-- The reads and writes of files in lib/spr_filesys.c (POSIX). The system is a parameter that answers
-- each call by what was read and written before; the journal is the list of the pieces that were
-- written, each by its place in the buffer and its length, the latest first.
pub mod Written
pub mod Utf8
pub mod WidePath
pub mod Path
pub mod Stat
pub mod File
pub mod Dir
pub mod Glob
pub mod Windows
mod Tests
use spr.Base.{ℕ, zero, suc, ◌+◌, ◌-◌, List, ◌∷◌, ◌==◌, if◌then◌else◌}
use spr.Base.Int.{ℤ, pos, negsuc, eq_ℤ, pos_part}
use spr.Base.Word

abbrev pub Journal : Type 0
Journal = List (ℕ × ℕ)

-- `lseek(fd, offset, SEEK_SET)` and `write(fd, buf + from, size)`, with the journal behind the call
pub record Kernel : Type 0 where
  pub lseek : ℕ → ℤ
  pub write : Journal → (from size : ℕ) → ℤ × Journal

-- How the loop of `spr_file_write` ends: with its result, the offset of the file and the journal, or
-- without fuel.
pub data Outcome : Type 0 where
  ended : ℤ → (offset : ℕ) → Journal → Outcome
  no_fuel : Outcome

-- The loop, with the bytes written so far and those that are left.
unfoldable pub write_loop : Kernel → ℕ → (offset written size : ℕ) → Journal → Outcome
unfolding Word.add Word.sub
write_loop k zero offset written size done = no_fuel
write_loop k (suc fuel) offset written size done =
    let (n, done') = k.write done written size in
    let count = pos_part n in
    let next =
      write_loop k fuel (Word.add offset count) (Word.add written count) (Word.sub size count)
        done' in
    if eq_ℤ n (negsuc 0)
    then ended (negsuc 0) offset done'
    else if count == size
    then ended (pos (Word.add written count)) (Word.add offset count) done'
    else next

-- `spr_file_write`, of a file at `current`
unfoldable pub file_write : Kernel → ℕ → (current size offset : ℕ) → Journal → Outcome
unfolding write_loop
file_write k fuel current size offset done =
    if eq_ℤ (k.lseek offset) (negsuc 0)
    then ended (negsuc 0) current done
    else write_loop k fuel current 0 size done
