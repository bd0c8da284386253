-- ===== src/Errno/Windows.antt =====
-- `spr_strerror` of lib/spr_errno.c for Windows; what `FormatMessage` writes is a parameter.
use spr.Base.{
  ℕ, zero, suc, Bool, ◌&&◌, ◌||◌, Option, none, some, List, length, get_elem?, set, ◌==◌,
  if◌then◌else◌,
}
use spr.Base.Int.{ℤ, pos, ltb_ℤ}
use spr.Memory
use spr.Sys.{Cmd, pure, fault_cmd, ◌>>◌}
use spr.Errno.{domain_base, list_strerror}
use spr.Errno.Messages.{unknown}

-- A carriage return, a line feed, a full stop or the terminator.
abbrev pub is_trimmed : ℕ → Bool
is_trimmed c = (c == 0) || (c == 13) || (c == 10) || (c == 46)

-- The loop from `buf[len]` down; where it goes past the first byte, an access out of bounds.
unfoldable pub trim : (len : ℕ) → List ℕ → Option (List ℕ)
trim zero buf = elim (get_elem? buf zero) [
  | none ↦ none
  | some c ↦ if is_trimmed c then none else some buf
]
trim (suc n) buf =
    let rest = trim n (set buf (suc n) 0) in
    elim (get_elem? buf (suc n)) [ none ↦ none | some c ↦ if is_trimmed c then rest else some buf ]

-- The language of the first try is MAKELANGID(LANG_ENGLISH, SUBLANG_ENGLISH_US), that of the second 0.
-- The inner option is what the buffer holds, or NULL; the outer one is `none` out of bounds.
unfoldable pub win_os_strerror :
    (format_message : ℤ → (lang bufsize : ℕ) → ℕ × List ℕ)
    → ℤ
    → (bufsize : ℕ) → Option (Option (List ℕ))
unfolding trim
win_os_strerror format_message err bufsize =
    let first = format_message err 0x0409 bufsize in
    let message = if first.0 == 0 then format_message err 0 bufsize else first in
    if bufsize == 0
    then some none
    else if message.0 == 0
    then some none
    else elim (trim message.0 message.1) [ none ↦ none | some buf ↦ some (some buf) ]

-- `spr_strerror`: where the system has no message, that of an unknown error is looked up.
unfoldable pub win_strerror :
    (format_message : ℤ → (lang bufsize : ℕ) → ℕ × List ℕ) → ℤ → (buf bufsize : ℕ) → Cmd ℕ
unfolding win_os_strerror list_strerror Memory.memmove
win_strerror format_message err buf bufsize =
    if ltb_ℤ (pos 0) err && ltb_ℤ err domain_base
    then elim (win_os_strerror format_message err bufsize) [
      | none ↦ fault_cmd
      | some none ↦ list_strerror unknown buf bufsize
      | some (some message) ↦ do Memory.memmove buf message (length message); pure buf
    ]
    else list_strerror err buf bufsize
