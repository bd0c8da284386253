-- ===== src/Network/Tests.antt =====
-- The theorem on flags at a system with one descriptor, of which the flags are the state.
use Prim.Native.Nat.{min, max, bit_and, bit_or}
use spr.Base.{ℕ, ◌-◌, ◌<◌, ◌≡◌, refl, ap, ◌∙◌, ◌==◌, if◌then◌else◌, arith}
use spr.Base.Bits.Single.{bit, bit-lt-two, bit-bit_or, bit-bit_and, bit_complement}
use spr.Base.Int.{pos}
use spr.Mutex.{success}
use spr.Network.Options.{Options, nonblocking, blocking}
use spr.Network.Options.Flags.{IsOpen, nonblocking-blocking}

-- F_SETFL sets O_NONBLOCK, which is 04000, and leaves the other flags as they are.
abbrev one_socket : Options ℕ
one_socket = record {
  errno = λ s. pos 9;
  setsockopt = λ fd option from s. (pos 0, s);
  getfl = λ fd s. (s, s);
  setfl = λ fd new s. (pos 0, bit_or (bit_and new 2048) (bit_and s (0xffffffff - 2048)));
  ioctl_fionbio = λ fd n s. (pos 0, s);
  nonblock = 2048;
}

mixed_digit :
    (n f m : ℕ) → n < 2 → f < 2 → m < 2 → max (min n m) (min f (1 - m)) ≡ (if m == 1 then n else f)
mixed_digit n f m h k l = ground arith

mixed_flags :
    (new s k : ℕ)
    → k < 32
    → bit k (bit_or (bit_and new 2048) (bit_and s (0xffffffff - 2048)))
      ≡ (if bit k 2048 == 1 then bit k new else bit k s)
mixed_flags new s k h =
    bit-bit_or k (bit_and new 2048) (bit_and s (0xffffffff - 2048))
    ∙ ap (λ d. max d (bit k (bit_and s (0xffffffff - 2048)))) (bit-bit_and k new 2048)
    ∙ ap (max (min (bit k new) (bit k 2048))) (
        bit-bit_and k s (0xffffffff - 2048)
        ∙ ap (min (bit k s)) (bit_complement 32 k 2048 h (omega arith)))
    ∙ mixed_digit (bit k new) (bit k s) (bit k 2048) (bit-lt-two k new) (bit-lt-two k s)
        (bit-lt-two k 2048)

abbrev one_socket-IsOpen : IsOpen one_socket (pos 3)
one_socket-IsOpen = record {
  flags = λ s. s;
  gets = λ s. refl;
  gets_only = λ s. refl;
  sets = λ s new. refl;
  settable = 2048;
  sets_flags = λ s new k h. mixed_flags new s k h;
}

-- The flags are O_RDWR, and the digit is that of O_NONBLOCK.
nonblocking-blocking_example :
    let s' = (nonblocking one_socket (pos 3) 2).1 in
    ((nonblocking one_socket (pos 3) 2).0 ≡ success)
    × ((blocking one_socket (pos 3) s').0 ≡ success)
    × (bit 11 s' ≡ max (bit 11 2) (bit 11 2048))
    × (bit 11 (blocking one_socket (pos 3) s').1 ≡ (if bit 11 2048 == 1 then 0 else bit 11 2))
nonblocking-blocking_example =
    nonblocking-blocking one_socket (pos 3) one_socket-IsOpen 2 (omega arith) (λ k. omega arith) 11
      (omega arith)
