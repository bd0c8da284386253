-- ===== src/Network/Options/Flags.antt =====
-- What `spr_socket_nonblocking` and `spr_socket_blocking` of lib/network/spr_sockopt.c (Linux) leave of
-- the flags of a descriptor.
use Prim.Native.Nat.{min, max, bit_and, bit_or}
use spr.Base.{ℕ, ◌-◌, ◌<◌, ◌≤◌, ◌≡◌, refl, ap, ◌∙◌, ◌^◌, ◌==◌, if◌then◌else◌, arith}
use spr.Base.Bits.Single.{bit, bit-lt-two, bit-bit_or, bit-bit_and, bit_complement}
use spr.Base.Int.{ℤ, pos}
use spr.Mutex.{success}
use spr.Network.Options.{Options, nonblocking, blocking}

-- A descriptor that is open: its flags are told by the state of the system, F_GETFL gives them, and
-- F_SETFL puts others in their place, of those flags that it can set; it ignores the others, such as the
-- mode of access.
pub record IsOpen {S : Type 0} (net : Options S) (fd : ℤ) : Type 0 where
  pub flags : S → ℕ
  pub gets : (s : S) → (net.getfl fd s).0 ≡ flags s
  pub gets_only : (s : S) → flags (net.getfl fd s).1 ≡ flags s
  pub sets : (s : S) (new : ℕ) → (net.setfl fd new s).0 ≡ pos 0
  pub settable : ℕ
  pub sets_flags :
      (s : S) (new k : ℕ)
      → k < 32
      → bit k (flags (net.setfl fd new s).1)
        ≡ (if bit k settable == 1 then bit k new else bit k (flags s))

module _ {S : Type 0} (net : Options S) (fd : ℤ) (open_fd : IsOpen net fd) (s : S) where
  -- A digit of the flags after a call that sets them.
  digit : ℕ → ℕ → ℕ
  digit k new = if bit k open_fd.settable == 1 then bit k new else bit k (open_fd.flags s)

  nonblocking_lem :
      (k : ℕ)
      → k < 32
      → ((nonblocking net fd s).0 ≡ success)
        × (bit k (open_fd.flags (nonblocking net fd s).1)
            ≡ digit k (bit_or (open_fd.flags s) net.nonblock))
  unfolding nonblocking digit
  nonblocking_lem k less =
      let s1 = (net.getfl fd s).1 in
      let new = bit_or (net.getfl fd s).0 net.nonblock in
      let same : new ≡ bit_or (open_fd.flags s) net.nonblock =
        ap (λ f. bit_or f net.nonblock) (open_fd.gets s) in
      rw (nonblocking, open_fd.sets s1 new)
        (
          refl,
          open_fd.sets_flags s1 new k less
              ∙ ap (λ f. if bit k open_fd.settable == 1 then bit k new else bit k f)
                  (open_fd.gets_only s)
              ∙ ap (λ f. if bit k open_fd.settable == 1 then bit k f else bit k (open_fd.flags s))
                  same,
        )

  blocking_lem :
      (k : ℕ)
      → k < 32
      → ((blocking net fd s).0 ≡ success)
        × (bit k (open_fd.flags (blocking net fd s).1)
            ≡ digit k (bit_and (open_fd.flags s) (0xffffffff - net.nonblock)))
  unfolding blocking digit
  blocking_lem k less =
      let s1 = (net.getfl fd s).1 in
      let new = bit_and (net.getfl fd s).0 (0xffffffff - net.nonblock) in
      let same : new ≡ bit_and (open_fd.flags s) (0xffffffff - net.nonblock) =
        ap (λ f. bit_and f (0xffffffff - net.nonblock)) (open_fd.gets s) in
      rw (blocking, open_fd.sets s1 new)
        (
          refl,
          open_fd.sets_flags s1 new k less
              ∙ ap (λ f. if bit k open_fd.settable == 1 then bit k new else bit k f)
                  (open_fd.gets_only s)
              ∙ ap (λ f. if bit k open_fd.settable == 1 then bit k f else bit k (open_fd.flags s))
                  same,
        )

-- Digits: `f` of the flags, `n` of O_NONBLOCK, `m` of those that can be set.
set_digit : (f n m : ℕ) → f < 2 → n < 2 → m < 2 → n ≤ m → (if m == 1 then max f n else f) ≡ max f n
set_digit f n m h k i l = ground arith

clear_digit :
    (f n m : ℕ)
    → f < 2
    → n < 2
    → m < 2
    → n ≤ m
    → (if m == 1 then min (max f n) (1 - n) else max f n) ≡ (if n == 1 then 0 else f)
clear_digit f n m h k i l = ground arith

-- `spr_socket_nonblocking` and then `spr_socket_blocking` (Linux), on a descriptor that is open and of
-- which F_SETFL can set O_NONBLOCK, succeed, and neither touches another of the 32 flags: after
-- `spr_socket_nonblocking` a flag is set if it was or is O_NONBLOCK, and after `spr_socket_blocking`
-- then, if it was and is not.
pub nonblocking-blocking :
    {S : Type 0} (net : Options S) (fd : ℤ) (open_fd : IsOpen net fd) (s : S)
    → net.nonblock < 2 ^ 32
    → ((k : ℕ) → bit k net.nonblock ≤ bit k open_fd.settable)
    → (k : ℕ) → k < 32
    → let s' = (nonblocking net fd s).1 in
      ((nonblocking net fd s).0 ≡ success)
      × ((blocking net fd s').0 ≡ success)
      × (bit k (open_fd.flags s') ≡ max (bit k (open_fd.flags s)) (bit k net.nonblock))
      × (bit k (open_fd.flags (blocking net fd s').1)
          ≡ (if bit k net.nonblock == 1 then 0 else bit k (open_fd.flags s)))
unfolding digit
nonblocking-blocking net fd open_fd s small settable k less =
    let f = bit k (open_fd.flags s) in
    let n = bit k net.nonblock in
    let m = bit k open_fd.settable in
    let s' = (nonblocking net fd s).1 in
    let (done, set) = nonblocking_lem net fd open_fd s k less in
    let (done', cleared) = blocking_lem net fd open_fd s' k less in
    let two = bit-lt-two k (open_fd.flags s) in
    let two' = bit-lt-two k net.nonblock in
    let after : bit k (open_fd.flags s') ≡ max f n =
      set
      ∙ ap (λ d. if m == 1 then d else f) (bit-bit_or k (open_fd.flags s) net.nonblock)
      ∙ set_digit f n m two two' (bit-lt-two k open_fd.settable) (settable k) in
    let last =
      cleared
      ∙ ap (λ d. if m == 1 then d else bit k (open_fd.flags s'))
          (bit-bit_and k (open_fd.flags s') (0xffffffff - net.nonblock))
      ∙ ap (λ d. if m == 1 then min (bit k (open_fd.flags s')) d else bit k (open_fd.flags s'))
          (bit_complement 32 k net.nonblock less small)
      ∙ ap (λ d. if m == 1 then min d (1 - n) else d) after
      ∙ clear_digit f n m two two' (bit-lt-two k open_fd.settable) (settable k) in
    (done, done', after, last)
