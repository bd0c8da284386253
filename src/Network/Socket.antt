-- ===== src/Network/Socket.antt =====
-- lib/network/spr_socket.c; an address of a socket is the bytes of its `sockaddr`.
use spr.Base.{ℕ, List, if◌then◌else◌}
use spr.Base.Int.{ℤ, pos, eq_ℤ}
use spr.Mutex.{success}
use spr.Host.{Step, pure, ◌>>=◌, get_errno, checked}

-- The calls, whose descriptors and handles are integers. `accept` also gives the address that it
-- writes.
pub record Sockets (S : Type 0) : Type 0 where
  pub errno : S → ℤ
  pub invalid_socket : ℤ
  pub socket : (domain type_of protocol : ℤ) → Step S ℤ
  pub bind : ℤ → List ℕ → Step S ℤ
  pub listen : ℤ → (backlog : ℤ) → Step S ℤ
  pub accept : ℤ → Step S (ℤ × List ℕ)
  pub connect : ℤ → List ℕ → Step S ℤ
  pub shutdown : ℤ → (how : ℤ) → Step S ℤ
  pub close : ℤ → Step S ℤ
  -- `WSAStartup` with MAKEWORD(2, 2)
  pub startup : (version : ℕ) → Step S ℤ

module _ {S : Type 0} (net : Sockets S) where
  -- The new socket is stored where there is one.
  abbrev store_socket : (old : ℤ) → ℤ → Step S (ℤ × ℤ)
  store_socket old sockfd =
      if eq_ℤ sockfd net.invalid_socket
      then (do err ← get_errno net.errno; pure (err, old))
      else pure (success, sockfd)

  -- `spr_socket_init`: what is returned, and what stands in `*new_sockfd` then
  unfoldable pub socket_init : (old domain type_of protocol : ℤ) → Step S (ℤ × ℤ)
  socket_init old domain type_of protocol = do
    sockfd ← net.socket domain type_of protocol
    store_socket old sockfd

  unfoldable pub socket_bind : ℤ → List ℕ → Step S ℤ
  socket_bind sockfd addr = checked net.errno (net.bind sockfd addr)

  unfoldable pub socket_listen : ℤ → ℤ → Step S ℤ
  socket_listen sockfd backlog = checked net.errno (net.listen sockfd backlog)

  -- `spr_socket_accept`, also with the address
  unfoldable pub socket_accept : (old sockfd : ℤ) → Step S ((ℤ × ℤ) × List ℕ)
  socket_accept old sockfd = do r ← net.accept sockfd; s ← store_socket old r.0; pure (s, r.1)

  unfoldable pub socket_connect : ℤ → List ℕ → Step S ℤ
  socket_connect sockfd addr = checked net.errno (net.connect sockfd addr)

  unfoldable pub socket_shutdown : ℤ → ℤ → Step S ℤ
  socket_shutdown sockfd how = checked net.errno (net.shutdown sockfd how)

  -- `spr_socket_close`, `close` or on Windows `closesocket`
  unfoldable pub socket_close : ℤ → Step S (Unit {0})
  socket_close sockfd = do r ← net.close sockfd; pure tt

  unfoldable pub winsock_init : Step S ℤ
  winsock_init = do
    r ← net.startup 0x0202
    if eq_ℤ r (pos 0) then pure success else get_errno net.errno
