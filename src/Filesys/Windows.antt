-- ===== src/Filesys/Windows.antt =====
-- Files in lib/spr_filesys.c for Windows (SPR_PTR_SIZE is 8, but for
-- win_file_size32); the calls of the system are a parameter.
-- `none` in a result is undefined behaviour: a read or a write out of bounds.
pub mod Find
use spr.Base.{ℕ, ◌-◌, ◌%◌, ◌^◌, ◌==◌, Option, none, some, List, [], if◌then◌else◌}
use spr.Base.Int.{ℤ, pos, pos_part, eq_ℤ, to_int32}
use spr.Base.Word
use spr.Mutex.{success}
use spr.Host.{Step, pure, ◌>>=◌, failed, get_errno}
use spr.Filesys.Stat.{FileType, unkfile, file_type_windows}
use spr.Filesys.WidePath.{wide_buffer}

-- What a transfer answers, the bytes that it moved, and how many.
pub record Transfer : Type 0 where
  pub worked : ℕ
  pub count : ℕ
  pub bytes : List ℕ

-- The calls; a path is the units at its address, a place in a file the 32 bits of `Offset`, and `none`
-- of them is a call without OVERLAPPED. Of a found file only its name is used.
pub record Windows (S : Type 0) : Type 0 where
  pub get_last_error : S → ℤ
  pub create_file : (path : List ℕ) (mode create : ℕ) → Step S ℤ
  pub close_handle : ℤ → Step S ℕ
  pub read_file : ℤ → (size : ℕ) → Option ℕ → Step S Transfer
  pub write_file : ℤ → List ℕ → (size : ℕ) → Option ℕ → Step S Transfer
  -- with `QuadPart`
  pub get_file_size : ℤ → Step S (ℕ × ℤ)
  -- `GetFileSize`, of 32 bits
  pub get_file_size32 : ℤ → Step S ℕ
  -- with `dwFileAttributes`
  pub get_file_attributes : (path : List ℕ) → Step S (ℕ × ℕ)
  pub get_file_information : ℤ → Step S (ℤ × ℕ)
  pub find_first_file : List ℕ → Step S (ℤ × List ℕ)
  pub find_next_file : ℤ → Step S (ℕ × List ℕ)
  pub find_close : ℤ → Step S ℕ
  -- `INVALID_HANDLE_VALUE`, `ERROR_NO_MORE_FILES`, `E2BIG`, FILE_ATTRIBUTE_DIRECTORY and `MAX_PATH`
  pub invalid_handle : ℤ
  pub no_more_files : ℤ
  pub too_big : ℤ
  pub directory : ℕ
  pub max_path : ℕ

pub record WinFile : Type 0 where
  pub fd : ℤ
  pub name : Option (List ℕ)
  pub offset : ℕ

pub record WinInfo : Type 0 where
  pub type_of : FileType
  pub access : ℕ
  pub attributes : ℕ

module _ {S : Type 0} (os : Windows S) where
  unfoldable pub win_file_open : (path : List ℕ) (mode create : ℕ) → Step S (Option (ℤ × WinFile))
  unfolding wide_buffer
  win_file_open path mode create = elim (wide_buffer os.max_path path) [
    | none ↦ pure none
    | some wpath ↦ do
      fd ← os.create_file wpath mode create
      if eq_ℤ fd os.invalid_handle
          then (do
            err ← get_errno os.get_last_error
            pure (some (err, record { fd = pos 0; name = none; offset = 0 })))
          else pure (some (success, record { fd = fd; name = some path; offset = 0 }))
  ]

  unfoldable pub win_file_read : WinFile → (size offset : ℕ) → Step S (ℤ × List ℕ × WinFile)
  unfolding Word.add
  win_file_read file size offset = do
    r ← os.read_file file.fd size (some (offset % 2 ^ 32))
    pure (
        if r.worked == 0
        then (failed, r.bytes, file)
        else (pos r.count, r.bytes, record file { offset = Word.add file.offset r.count }))

  -- A part of the bytes is a failure.
  unfoldable pub win_file_write : WinFile → List ℕ → (size offset : ℕ) → Step S (ℤ × WinFile)
  unfolding Word.add
  win_file_write file buf size offset = do
    r ← os.write_file file.fd buf size (some (offset % 2 ^ 32))
    pure (
        if r.worked == 0
        then (failed, file)
        else if r.count == size
        then (pos r.count, record file { offset = Word.add file.offset r.count })
        else (failed, file))

  unfoldable pub win_file_size : WinFile → Step S ℤ
  win_file_size file = do r ← os.get_file_size file.fd; pure (if r.0 == 1 then r.1 else failed)

  -- `spr_file_size` where a pointer has four bytes: the test for SPR_INVALID_FILE_SIZE returns the same.
  unfoldable pub win_file_size32 : WinFile → Step S ℤ
  win_file_size32 file = do
    r ← os.get_file_size32 file.fd
    pure (if r % 2 ^ 32 == 2 ^ 32 - 1 then failed else to_int32 r)

  unfoldable pub win_read_fd : ℤ → (size : ℕ) → Step S (ℤ × List ℕ)
  win_read_fd fd size = do
    r ← os.read_file fd size none
    pure (if r.worked == 0 then (failed, r.bytes) else (pos r.count, r.bytes))

  unfoldable pub win_write_fd : ℤ → List ℕ → (size : ℕ) → Step S ℤ
  win_write_fd fd buf size = do
    r ← os.write_file fd buf size none
    pure (if r.worked == 0 then failed else pos r.count)

  -- The attributes, where there are any.
  unfoldable pub win_stat_by_path : (path : List ℕ) → Step S (Option (ℤ × Option ℕ))
  unfolding wide_buffer
  win_stat_by_path path = elim (wide_buffer os.max_path path) [
    | none ↦ pure none
    | some wpath ↦ do
      r ← os.get_file_attributes wpath
      if r.0 == 0
          then (do err ← get_errno os.get_last_error; pure (some (err, none)))
          else pure (some (success, some r.1))
  ]

  abbrev found_info : ℕ → WinInfo
  found_info attributes = record {
    type_of = file_type_windows os.directory attributes;
    access = 0;
    attributes = attributes;
  }

  unfoldable pub win_file_info_by_path : WinInfo → List ℕ → Step S (Option (ℤ × WinInfo))
  unfolding win_stat_by_path file_type_windows
  win_file_info_by_path info path = do
    r ← win_stat_by_path path
    pure (elim r [
      | none ↦ none
      | some (err, none) ↦ some (err, info)
      | some (err, some attributes) ↦ some (err, found_info attributes)
    ])

  -- The test is `== -1`.
  unfoldable pub win_file_info : WinInfo → WinFile → Step S (ℤ × WinInfo)
  unfolding file_type_windows
  win_file_info info file = do
    r ← os.get_file_information file.fd
    if eq_ℤ r.0 failed
        then (do err ← get_errno os.get_last_error; pure (err, record info { attributes = r.1 }))
        else pure (success, found_info r.1)

  -- `none` is NULL
  unfoldable pub win_file_close : Option WinFile → Step S (Option WinFile)
  win_file_close none = pure none
  win_file_close (some file) = do
    r ← os.close_handle file.fd
    pure (some (record { fd = os.invalid_handle; name = none; offset = 0 }))
