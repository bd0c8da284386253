-- ===== src/Filesys/File.antt =====
-- Files in lib/spr_filesys.c for POSIX, but for `spr_file_write`; the calls of the C library are a
-- parameter. A path is the bytes from its address on.
use Prim.Native.Nat.{bit_or}
use spr.Base.{ℕ, Option, none, some, List, [], if◌then◌else◌}
use spr.Base.Int.{ℤ, pos, pos_part, eq_ℤ}
use spr.Base.Word
use spr.Mutex.{success}
use spr.Str.Length.{strlen}
use spr.Host.{Step, pure, ◌>>=◌, failed, get_errno}
use spr.Filesys.Stat.{FileType, StatHeader, file_type, file_access}

pub data Whence : Type 0 where
  seek_set seek_cur seek_end : Whence

-- An entry of a directory: `d_type` and `d_name`.
pub record Dirent : Type 0 where
  pub d_type : ℕ
  pub d_name : List ℕ

-- The calls, with what they leave in the buffers that they are given; a handle of a directory is its
-- address.
pub record Posix (S : Type 0) : Type 0 where
  pub errno : S → ℤ
  pub open_fd : (path : List ℕ) (flags access : ℕ) → Step S ℤ
  pub close : ℤ → Step S ℤ
  pub lseek : ℤ → ℤ → Whence → Step S ℤ
  pub read : (fd : ℤ) (size : ℕ) → Step S (ℤ × List ℕ)
  pub write : (fd : ℤ) → List ℕ → (size : ℕ) → Step S ℤ
  -- `stat` and `fstat`, with `st_mode`
  pub stat : List ℕ → Step S (ℤ × ℕ)
  pub fstat : ℤ → Step S (ℤ × ℕ)
  pub opendir : List ℕ → Step S ℕ
  pub readdir : ℕ → Step S (Option Dirent)
  pub closedir : ℕ → Step S ℤ
  -- `glob`, with `gl_pathv`
  pub glob : List ℕ → Step S (ℤ × List (List ℕ))
  pub globfree : List (List ℕ) → Step S (Unit {0})

-- `spr_file_s`; `none` is a name that is NULL
pub record SprFile : Type 0 where
  pub fd : ℤ
  pub name : Option (List ℕ)
  pub offset : ℕ

-- `spr_file_info_s`, with the mode of its `stat`
pub record FileInfo : Type 0 where
  pub type_of : FileType
  pub access : ℕ
  pub mode : ℕ

-- `SPR_INVALID_FILE`
abbrev pub invalid_file : ℤ
invalid_file = failed

-- what `spr_memzero` leaves
abbrev pub zero_file : SprFile
zero_file = record { fd = pos 0; name = none; offset = 0 }

module _ {S : Type 0} (os : Posix S) where
  unfoldable pub file_open : (path : List ℕ) (mode create access : ℕ) → Step S (ℤ × SprFile)
  file_open path mode create access = do
    fd ← os.open_fd path (bit_or mode create) access
    if eq_ℤ fd invalid_file
        then (do err ← get_errno os.errno; pure (err, zero_file))
        else pure (success, record { fd = fd; name = some path; offset = 0 })

  -- What is returned, the bytes that are read, and the file.
  unfoldable pub file_read : SprFile → (size : ℕ) → ℤ → Step S (ℤ × List ℕ × SprFile)
  unfolding Word.add
  file_read file size offset = do
    at ← os.lseek file.fd offset seek_set
    if eq_ℤ at failed then pure (failed, [], file) else do
      r ← os.read file.fd size
      pure (
          if eq_ℤ r.0 failed
          then (failed, r.1, file)
          else (r.0, r.1, record file { offset = Word.add file.offset (pos_part r.0) }))

  -- The offset is set to the end and back.
  unfoldable pub file_size : SprFile → Step S ℤ
  file_size file = do
    off ← os.lseek file.fd (pos 0) seek_cur
    if eq_ℤ off failed then pure failed else do
      size ← os.lseek file.fd (pos 0) seek_end
      if eq_ℤ size failed then pure failed else do
        back ← os.lseek file.fd off seek_set
        pure (if eq_ℤ back failed then failed else size)

  unfoldable pub read_fd : ℤ → (size : ℕ) → Step S (ℤ × List ℕ)
  read_fd fd size = do r ← os.read fd size; pure (if eq_ℤ r.0 failed then (failed, r.1) else r)

  unfoldable pub write_fd : ℤ → List ℕ → (size : ℕ) → Step S ℤ
  write_fd fd buf size = do r ← os.write fd buf size; pure (if eq_ℤ r failed then failed else r)

  -- `spr_write_stdout` and `spr_write_stderr`, by the descriptor; `none` is a string that does not end
  unfoldable pub write_std : ℤ → List ℕ → Step S (Option ℤ)
  unfolding write_fd strlen
  write_std fd str = elim (strlen str) [
    | none ↦ pure none
    | some len ↦ do r ← write_fd fd str len; pure (some r)
  ]

  -- The type and the access are left as they are where the call fails.
  abbrev pub fill_info : StatHeader → FileInfo → ℤ × ℕ → Step S (ℤ × FileInfo)
  fill_info header info (r, mode) =
      if eq_ℤ r failed
      then (do err ← get_errno os.errno; pure (err, record info { mode = mode }))
      else pure (
        success,
        record { type_of = file_type header mode; access = file_access header mode; mode = mode },
      )

  unfoldable pub file_info_by_path : StatHeader → FileInfo → List ℕ → Step S (ℤ × FileInfo)
  unfolding file_type file_access
  file_info_by_path header info path = do r ← os.stat path; fill_info header info r

  unfoldable pub file_info : StatHeader → FileInfo → SprFile → Step S (ℤ × FileInfo)
  unfolding file_type file_access
  file_info header info file = do r ← os.fstat file.fd; fill_info header info r

  -- `none` is NULL
  unfoldable pub file_close : Option SprFile → Step S (Option SprFile)
  file_close none = pure none
  file_close (some file) = do
    r ← os.close file.fd
    pure (some (record { fd = invalid_file; name = none; offset = 0 }))
