-- ===== src/Network/Address.antt =====
-- lib/network/spr_sockaddr.c: `none` is NULL, else what is written to the buffer. What `getnameinfo`
-- answers and writes is a parameter; the length that is passed is that of a `sockaddr_storage`.
use spr.Base.{ℕ, List, Option, none, some, if◌then◌else◌}
use spr.Base.Int.{ℤ, pos, eq_ℤ}

-- NI_NUMERICHOST, and NI_NUMERICHOST|NI_NUMERICSERV
pub data NameFlags : Type 0 where
  numeric_host numeric_host_and_service : NameFlags

-- Which of the two texts is asked for.
pub data NamePart : Type 0 where
  host service : NamePart

module _ (getnameinfo : List ℕ → NamePart → (bufsize : ℕ) → NameFlags → ℤ × List ℕ) where
  abbrev text_of : ℤ × List ℕ → Option (List ℕ)
  text_of (r, buf) = if eq_ℤ r (pos 0) then some buf else none

  unfoldable pub get_addr_text : List ℕ → (bufsize : ℕ) → Option (List ℕ)
  get_addr_text sockaddr bufsize = text_of (getnameinfo sockaddr host bufsize numeric_host)

  unfoldable pub get_port_text : List ℕ → (bufsize : ℕ) → Option (List ℕ)
  get_port_text sockaddr bufsize =
      text_of (getnameinfo sockaddr service bufsize numeric_host_and_service)
