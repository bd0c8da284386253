-- ===== src/Time.antt =====
-- lib/spr_time.c; the clocks of the system are parameters.
pub mod Laws
use spr.Base.{ℕ, suc, ◌+◌, ◌-◌, ◌*◌, ◌/◌, ◌%◌, ◌^◌, ltb, if◌then◌else◌}
use spr.Base.Int.{ℤ, pos, negsuc, to_int32}
use spr.Base.Word
use spr.Host.{Step}
use spr.Base.Word.{word}

-- `struct timeval`
pub record Timeval : Type 0 where
  pub tv_sec : ℤ
  pub tv_usec : ℤ

-- `tm_mon` and `tm_year`; the other fields are not touched.
pub record Tm : Type 0 where
  pub tm_mon : ℤ
  pub tm_year : ℤ

-- `n + k`
abbrev pub shift : ℤ → ℕ → ℤ
shift (pos n) k = pos (n + k)
shift (negsuc n) k = if ltb n k then pos (k - suc n) else negsuc (n - k)

-- `spr_localtime` (POSIX), with what `localtime_r` writes
unfoldable pub localtime : Tm → Tm
localtime tm = record { tm_mon = shift tm.tm_mon 1; tm_year = shift tm.tm_year 1900 }

-- `spr_gettimeofday` of Windows, with the two halves of what `GetSystemTimeAsFileTime` writes
unfoldable pub win_gettimeofday : (high low : ℕ) → Timeval
unfolding Word.sub
win_gettimeofday high low =
    let intervals = Word.sub ((high * 2 ^ 32) % word + low) 116444736000000000 in
    record {
      tv_sec = to_int32 (intervals / 10000000);
      tv_usec = to_int32 (intervals % 10000000 / 10);
    }

-- `spr_localtime` (Windows): the time asked for is not used, and what `GetLocalTime` writes is not shifted.
unfoldable pub win_localtime : {S : Type 0} → Step S Tm → ℤ → Step S Tm
win_localtime get_local_time sec = get_local_time
