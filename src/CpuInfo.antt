-- ===== src/CpuInfo.antt =====
-- lib/spr_cpuinfo.c, with what the system answers.
use spr.Base.{ℕ, if◌then◌else◌, ◌==◌}
use spr.Base.Int.{ℤ, pos, negsuc}

-- `spr_get_number_cpu`, with the answer of `sysconf` or, on Windows, `dwNumberOfProcessors`
unfoldable pub get_number_cpu : ℤ → ℕ
get_number_cpu (pos n) = if n == 0 then 1 else n
get_number_cpu (negsuc n) = 1
