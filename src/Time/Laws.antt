-- ===== src/Time/Laws.antt =====
-- The clock of lib/spr_time.c on Windows.
use spr.Base.{ℕ, ◌+◌, ◌*◌, ◌/◌, ◌%◌, ◌^◌, ◌<◌, ◌≡◌, refl, ◌∙◌, ltb, arith, true}
use spr.Base.Int.{pos, to_int32}
use spr.Base.Word
use spr.Base.Word.{word, sub-fits}
use spr.Time.{win_gettimeofday}

to_int32-small : (n : ℕ) → n < 2 ^ 31 → to_int32 n ≡ pos n
to_int32-small n h =
    let e : n % 2 ^ 32 ≡ n = omega arith in
    let t : ltb n (2 ^ 31) ≡ true = ground arith in rw (e, t) refl

-- The FILETIME counts tenths of microseconds since 1601; `spr_gettimeofday` on Windows gives of it the
-- seconds and the microseconds since 1970, for a time before 2038.
pub win_gettimeofday-since_epoch :
    (high low sec usec tenth : ℕ)
    → low < 2 ^ 32
    → high * 2 ^ 32 + low ≡ 116444736000000000 + sec * 10000000 + usec * 10 + tenth
    → sec < 2 ^ 31
    → usec < 1000000
    → tenth < 10
    → win_gettimeofday high low ≡ record { tv_sec = pos sec; tv_usec = pos usec }
unfolding win_gettimeofday
win_gettimeofday-since_epoch high low sec usec tenth l e s u t =
    let small : (high * 2 ^ 32) % word + low ≡ high * 2 ^ 32 + low = omega (arith, e, s, u, t) in
    let n = sec * 10000000 + usec * 10 + tenth in
    let i : Word.sub ((high * 2 ^ 32) % word + low) 116444736000000000 ≡ n =
      sub-fits ((high * 2 ^ 32) % word + low) 116444736000000000 (omega (arith, small, e))
        (omega (arith, small, e, s, u, t))
      ∙ omega (arith, small, e) in
    let whole : n / 10000000 ≡ sec = omega (arith, u, t) in
    let part : n % 10000000 / 10 ≡ usec = omega (arith, u, t) in
    rw
      (
        win_gettimeofday,
        i,
        whole,
        part,
        to_int32-small sec s,
        to_int32-small usec (omega (arith, u)),
      )
      refl
