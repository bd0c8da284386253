-- ===== src/Network/Options.antt =====
-- lib/network/spr_sockopt.c. An option that a call sets is known by its level and its name.
pub mod Flags
use Prim.Native.Nat.{bit_and, bit_or}
use spr.Base.{ℕ, ◌-◌, if◌then◌else◌}
use spr.Base.Int.{ℤ, pos, eq_ℤ}
use spr.Mutex.{success}
use spr.Host.{Step, pure, ◌>>=◌, get_errno, checked}

pub data SockOption : Type 0 where
  -- SOL_SOCKET and SO_REUSEADDR, IPPROTO_TCP and TCP_NOPUSH
  reuse_addr tcp_nopush : SockOption

-- What `setsockopt` reads an `int` from: a variable, or the code of a function.
pub data Source : Type 0 where
  int_variable : ℤ → Source
  function_code : Source

-- The calls. Flags of a descriptor are the 32 bits of an `int`; on Windows `ioctl` is `ioctlsocket`.
pub record Options (S : Type 0) : Type 0 where
  pub errno : S → ℤ
  pub setsockopt : ℤ → SockOption → Source → Step S ℤ
  pub getfl : ℤ → Step S ℕ
  pub setfl : ℤ → (flags : ℕ) → Step S ℤ
  pub ioctl_fionbio : ℤ → ℤ → Step S ℤ
  -- O_NONBLOCK
  pub nonblock : ℕ

module _ {S : Type 0} (net : Options S) where
  -- Linux
  unfoldable pub socket_nopush : ℤ → Step S ℤ
  socket_nopush sockfd = checked net.errno (net.setsockopt sockfd reuse_addr (int_variable (pos 1)))

  unfoldable pub socket_push : ℤ → Step S ℤ
  socket_push sockfd = checked net.errno (net.setsockopt sockfd reuse_addr (int_variable (pos 0)))

  -- An error of F_GETFL is not looked at.
  unfoldable pub nonblocking : ℤ → Step S ℤ
  nonblocking sockfd = do
    flags ← net.getfl sockfd
    checked net.errno (net.setfl sockfd (bit_or flags net.nonblock))

  unfoldable pub blocking : ℤ → Step S ℤ
  blocking sockfd = do
    flags ← net.getfl sockfd
    checked net.errno (net.setfl sockfd (bit_and flags (0xffffffff - net.nonblock)))

  -- FreeBSD
  unfoldable pub nopush_freebsd : ℤ → Step S ℤ
  nopush_freebsd sockfd =
      checked net.errno (net.setsockopt sockfd tcp_nopush (int_variable (pos 1)))

  -- What is passed is `&spr_socket_nopush`.
  unfoldable pub push_freebsd : ℤ → Step S ℤ
  push_freebsd sockfd = checked net.errno (net.setsockopt sockfd tcp_nopush function_code)

  unfoldable pub nonblocking_ioctl : ℤ → Step S ℤ
  nonblocking_ioctl sockfd = checked net.errno (net.ioctl_fionbio sockfd (pos 1))

  unfoldable pub blocking_ioctl : ℤ → Step S ℤ
  blocking_ioctl sockfd = checked net.errno (net.ioctl_fionbio sockfd (pos 0))

  -- Solaris
  unfoldable pub nonblocking_solaris : ℤ → Step S ℤ
  nonblocking_solaris sockfd = checked net.errno (net.ioctl_fionbio sockfd (pos 1))

  unfoldable pub blocking_solaris : ℤ → Step S ℤ
  blocking_solaris sockfd = checked net.errno (net.ioctl_fionbio sockfd (pos 0))

  unfoldable pub nopush_nothing : ℤ → Step S ℤ
  nopush_nothing sockfd = pure success

  unfoldable pub push_nothing : ℤ → Step S ℤ
  push_nothing sockfd = pure success

  -- Windows, where any answer but 0 is a failure
  abbrev checked_zero : Step S ℤ → Step S ℤ
  checked_zero call = do r ← call; if eq_ℤ r (pos 0) then pure success else get_errno net.errno

  unfoldable pub nonblocking_windows : ℤ → Step S ℤ
  nonblocking_windows sockfd = checked_zero (net.ioctl_fionbio sockfd (pos 1))

  unfoldable pub blocking_windows : ℤ → Step S ℤ
  blocking_windows sockfd = checked_zero (net.ioctl_fionbio sockfd (pos 0))

  unfoldable pub nopush_windows : ℤ → Step S ℤ
  nopush_windows sockfd = pure success

  unfoldable pub push_windows : ℤ → Step S ℤ
  push_windows sockfd = pure success
