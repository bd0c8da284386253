-- ===== src/Filesys/Dir.antt =====
-- Directories in lib/spr_filesys.c for POSIX. `none` in a result is undefined behaviour: NULL is
-- followed, a name does not end, or a buffer is written behind its end.
use spr.Base.{ℕ, Bool, Option, none, some, List, length, leb, ◌==◌, if◌then◌else◌}
use spr.Base.Int.{ℤ, eq_ℤ}
use spr.Mutex.{success}
use spr.Host.{Step, pure, ◌>>=◌, done, get_errno}
use spr.Filesys.Path.{slash, full_path}
use spr.Filesys.Stat.{FileType, StatHeader, file_type}
use spr.Filesys.File.{Posix, Dirent}

-- `spr_dir_s`; the handle is an address, and the type is a `uint8_t` of the kind `T`
pub record SprDir (T : Type 0) : Type 0 where
  pub dir : ℕ
  pub dirent : Option Dirent
  pub name : Option (List ℕ)
  pub type_of : T

module _ {S : Type 0} (os : Posix S) where
  -- The type of an entry that is not known is `unknown`, 0 in both variants.
  unfoldable pub dir_open : {T : Type 0} → (unknown : T) → List ℕ → Step S (ℤ × SprDir T)
  dir_open unknown path = do
    dir ← os.opendir path
    if dir == 0
        then (do
          err ← get_errno os.errno
          pure (err, record { dir = 0; dirent = none; name = none; type_of = unknown }))
        else pure
            (success, record { dir = dir; dirent = none; name = some path; type_of = unknown })

  -- What is returned where `readdir` gives NULL.
  abbrev pub no_entry : {T : Type 0} → SprDir T → Step S (ℤ × SprDir T)
  no_entry d = do
    err ← get_errno os.errno
    pure (if eq_ℤ err success then done else err, record d { dirent = none })

  -- `spr_dir_read` with SPR_HAVE_D_TYPE: the type is that of the entry
  unfoldable pub dir_read : SprDir ℕ → Step S (ℤ × SprDir ℕ)
  dir_read d = do
    dirent ← os.readdir d.dir
    elim dirent [
      | none ↦ no_entry d
      | some entry ↦ pure (success, record d { dirent = some entry; type_of = entry.d_type })
    ]

  -- `fullpath` filled by `spr_file_full_path`
  unfoldable pub entry_path : (max_path : ℕ) → Option (List ℕ) → List ℕ → Option (List ℕ)
  unfolding full_path
  entry_path max_path none entry = none
  entry_path max_path (some name) entry = elim (full_path slash name entry) [
    | none ↦ none
    | some path ↦ if leb (length path.buf) max_path then some path.buf else none
  ]

  -- `spr_dir_read` without it; what `stat` answers is not looked at
  unfoldable pub dir_read_stat :
      (max_path : ℕ) → StatHeader → SprDir FileType → Step S (Option (ℤ × SprDir FileType))
  unfolding entry_path file_type
  dir_read_stat max_path header d = do
    dirent ← os.readdir d.dir
    elim dirent [
      | none ↦ do r ← no_entry d; pure (some r)
      | some entry ↦ elim (entry_path max_path d.name entry.d_name) [
        | none ↦ pure none
        | some path ↦ do
          r ← os.stat path
          pure (some (success, record d { dirent = some entry; type_of = file_type header r.1 }))
      ]
    ]

  -- `none` is NULL
  unfoldable pub dir_close : {T : Type 0} → Option (SprDir T) → Step S (Unit {0})
  dir_close none = pure tt
  dir_close (some d) = do r ← os.closedir d.dir; pure tt

-- `spr_dir_current_name`, through the entry
unfoldable pub dir_current_name : {T : Type 0} → SprDir T → Option (List ℕ)
dir_current_name d = elim d.dirent [ none ↦ none | some entry ↦ some entry.d_name ]

unfoldable pub dir_current_file_type : {T : Type 0} → SprDir T → T
dir_current_file_type d = d.type_of

-- The test is `type == SPR_FILE_TYPE_FILE`.
unfoldable pub dir_current_is_file : {T : Type 0} → (T → Bool) → SprDir T → Bool
dir_current_is_file is_regular d = is_regular d.type_of
