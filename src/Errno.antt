-- ===== src/Errno.antt =====
-- lib/spr_errno.c and lib/spr_dso.c (POSIX): messages of errors, copied into the caller's buffer. What
-- the C library's `strerror` and `dlerror` point at is a parameter.
pub mod Messages
pub mod Shows
pub mod Laws
pub mod Windows
pub mod Trimmed
mod Tests
use spr.Base.{ℕ, ◌+◌, ◌-◌, Option, none, some, List, [], ◌∷◌, ◌&&◌, ◌||◌, ltb, ◌==◌, if◌then◌else◌}
use spr.Base.Int.{ℤ, pos, eq_ℤ, ltb_ℤ}
use spr.Memory
use spr.Str.Copy.{measured}
use spr.Sys.{Cmd, pure, fault_cmd, ◌>>=◌, ◌>>◌}
use spr.Errno.Messages.{unknown, error_list}

-- `buf[i] = '\0'` in a buffer of `bufsize` bytes
unfoldable pub put_end : (buf bufsize i : ℕ) → Cmd (Unit {0})
unfolding Memory.memmove
put_end buf bufsize i = if ltb i bufsize then Memory.memmove (buf + i) (0 ∷ []) 1 else fault_cmd

-- The copy of a message, cut off at the end of the buffer; the index -1 is out of bounds.
unfoldable pub copy_message : (buf bufsize : ℕ) → List ℕ → Cmd (Unit {0})
unfolding put_end measured Memory.memmove
copy_message buf bufsize str = do
  len ← measured str
  if ltb len bufsize
      then Memory.memmove buf str len >> put_end buf bufsize len
      else if bufsize == 0
      then fault_cmd
      else Memory.memmove buf str bufsize >> put_end buf bufsize (bufsize - 1)

-- The loop over the list of errors; to run off its end is undefined.
unfoldable pub find_message : ℤ → List (ℤ × List ℕ) → Option (List ℕ)
find_message err [] = none
find_message err ((code, message) ∷ rest) =
    let next = find_message err rest in
    if eq_ℤ code err || eq_ℤ code unknown then some message else next

-- `SPR_ERROR_DOMAIN_BASE`
abbrev pub domain_base : ℤ
domain_base = pos 20000

-- `spr_os_strerror`
unfoldable pub os_strerror : (ℤ → List ℕ) → ℤ → (buf bufsize : ℕ) → Cmd ℕ
unfolding copy_message
os_strerror strerror err buf bufsize = do copy_message buf bufsize (strerror err); pure buf

-- The loop of `spr_strerror`, and the copy of the message that it finds.
unfoldable pub list_strerror : ℤ → (buf bufsize : ℕ) → Cmd ℕ
unfolding copy_message find_message
list_strerror err buf bufsize = elim (find_message err error_list) [
  | none ↦ fault_cmd
  | some message ↦ do copy_message buf bufsize message; pure buf
]

-- `spr_strerror` (POSIX); `spr_os_strerror` never returns NULL
unfoldable pub strerror : (ℤ → List ℕ) → ℤ → (buf bufsize : ℕ) → Cmd ℕ
unfolding os_strerror list_strerror
strerror os_message err buf bufsize =
    if ltb_ℤ (pos 0) err && ltb_ℤ err domain_base
    then os_strerror os_message err buf bufsize
    else list_strerror err buf bufsize

-- `spr_dlerror`, given what `dlerror` points at, or NULL
unfoldable pub dlerror : Option (List ℕ) → (buf bufsize : ℕ) → Cmd ℕ
unfolding copy_message
dlerror os_message buf bufsize = do
  copy_message buf bufsize (elim os_message [ none ↦ 0 ∷ [] | some str ↦ str ])
  pure buf
