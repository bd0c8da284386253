-- ===== src/Filesys/Windows/Find.antt =====
-- Directories and patterns in lib/spr_filesys.c for Windows. `none` in a result is undefined behaviour.
pub mod Fits
use spr.Base.{
  ℕ, zero, suc, ◌+◌, Bool, true, false, ◌&&◌, not, Option, none, some, List, [], ◌∷◌, ◌++◌,
  get_elem?, length, take, leb, ltb, ◌==◌, if◌then◌else◌,
}
use spr.Base.Int.{ℤ, pos, negsuc, eq_ℤ}
use spr.Mutex.{success}
use spr.Str.Length.{strlen}
use spr.Host.{Step, pure, ◌>>=◌, failed, done, get_errno}
use spr.Filesys.Path.{FullPath, backslash, full_path, abs_path_error, long_path_error}
use spr.Filesys.Stat.{FileType, unkfile, file_type_windows}
use spr.Filesys.Windows.{Windows, win_stat_by_path}

-- `spr_dir_s`, with the name that `finddata` holds
pub record WinDir : Type 0 where
  pub dir : ℤ
  pub found : List ℕ
  pub name : Option (List ℕ)
  pub type_of : FileType

-- `spr_glob_s`; `last_res` points at the name in `finddata`
pub record WinGlob : Type 0 where
  pub dir : ℤ
  pub found : List ℕ
  pub pattern : List ℕ
  pub prefix_len : ℕ
  pub finished : Bool

-- The pattern `path\*` in `char str[SPR_MAX_PATH_LEN + 3]`; `some none` is E2BIG. 42 is `*`.
unfoldable pub dir_pattern : (max_path : ℕ) → List ℕ → Option (Option (List ℕ))
unfolding strlen
dir_pattern max_path path = elim (strlen path) [
  | none ↦ none
  | some len ↦
      if leb (max_path + 3) len
      then some none
      else if leb (len + 3) (max_path + 3)
      then some (some (take len path ++ backslash ∷ 42 ∷ 0 ∷ []))
      else none
]

-- The loop of `spr_glob_open` from index `i` down: where the last backslash is, 0 if there is none.
unfoldable pub last_separator : List ℕ → ℕ → Option ℕ
last_separator pattern zero = elim (get_elem? pattern zero) [ none ↦ none | some c ↦ some zero ]
last_separator pattern (suc i) =
    let rest = last_separator pattern i in
    elim (get_elem? pattern (suc i)) [
      | none ↦ none
      | some c ↦ if c == backslash then some (suc i) else rest
    ]

module _ {S : Type 0} (os : Windows S) where
  abbrev get_error : Step S ℤ
  get_error = get_errno os.get_last_error

  abbrev no_dir : ℤ → List ℕ → WinDir
  no_dir handle found = record { dir = handle; found = found; name = none; type_of = unkfile }

  unfoldable pub win_dir_open : List ℕ → Step S (Option (ℤ × WinDir))
  unfolding dir_pattern
  win_dir_open path = elim (dir_pattern os.max_path path) [
    | none ↦ pure none
    | some none ↦ pure (some (os.too_big, no_dir (pos 0) []))
    | some (some str) ↦ do
      r ← os.find_first_file str
      err ← get_error
      pure (
          some (
            if eq_ℤ r.0 os.invalid_handle
            then (if eq_ℤ err success then done else err, no_dir r.0 r.1)
            else (success, record (no_dir r.0 r.1) { name = some path })))
  ]

  -- `fullpath` filled by `spr_file_full_path`
  unfoldable pub win_entry_path : Option (List ℕ) → List ℕ → Option (List ℕ)
  unfolding full_path
  win_entry_path none entry = none
  win_entry_path (some name) entry = elim (full_path backslash name entry) [
    | none ↦ none
    | some path ↦ if leb (length path.buf) os.max_path then some path.buf else none
  ]

  -- The type of the entry; where its attributes are not got, `fstat` is not written, and what is read
  -- of it is the parameter `stale`.
  unfoldable pub win_entry_type : (stale : ℕ) → WinDir → Step S (Option (ℤ × WinDir))
  unfolding win_entry_path win_stat_by_path file_type_windows
  win_entry_type stale d = elim (win_entry_path d.name d.found) [
    | none ↦ pure none
    | some path ↦ do
      r ← win_stat_by_path os path
      pure (elim r [
        | none ↦ none
        | some (err, none) ↦
            some (success, record d { type_of = file_type_windows os.directory stale })
        | some (err, some attributes) ↦
            some (success, record d { type_of = file_type_windows os.directory attributes })
      ])
  ]

  unfoldable pub win_dir_read : (stale : ℕ) → WinDir → Step S (Option (ℤ × WinDir))
  unfolding win_entry_type
  win_dir_read stale d = do
    r ← os.find_next_file d.dir
    let d' = record d { found = r.1 }
    if r.0 == 0
        then (do
          err ← get_error
          pure (
              some (
                if not (eq_ℤ err success) && not (eq_ℤ err os.no_more_files) then err else done,
                d',
              )))
        else win_entry_type stale d'

  -- `none` is NULL
  unfoldable pub win_dir_close : Option WinDir → Step S (Unit {0})
  win_dir_close none = pure tt
  win_dir_close (some d) = do r ← os.find_close d.dir; pure tt

  unfoldable pub win_glob_open : WinGlob → List ℕ → Step S (Option (ℤ × WinGlob))
  unfolding strlen last_separator
  win_glob_open gl pattern = do
    r ← os.find_first_file pattern
    let gl' = record gl { dir = r.0; found = r.1 }
    if eq_ℤ r.0 os.invalid_handle then pure (some (failed, gl')) else elim (strlen pattern) [
      | none ↦ pure none
      | some i ↦ elim (last_separator pattern i) [
        | none ↦ pure none
        | some zero ↦ pure (some (abs_path_error, gl'))
        | some (suc len) ↦ pure (
            some (
              success,
              record gl' { prefix_len = suc len + 1; pattern = pattern; finished = false },
            ))
      ]
    ]

  -- The search for the path that the next call copies.
  unfoldable pub win_advance : WinGlob → Step S (ℤ × WinGlob)
  win_advance gl = do
    r ← os.find_next_file gl.dir
    let gl' = record gl { found = r.1 }
    if r.0 == 0 then pure (success, record gl' { finished = true }) else (do
      err ← get_error
      pure (
          if not (eq_ℤ err success) && not (eq_ℤ err os.no_more_files)
          then (err, record gl' { finished = true })
          else (success, gl')))

  -- What is returned, what is written to `res` from its first byte on, and the state.
  unfoldable pub win_glob_read : WinGlob → Step S (Option (ℤ × List ℕ × WinGlob))
  unfolding strlen win_advance
  win_glob_read gl = if gl.finished then pure (some (done, [], gl)) else elim (strlen gl.found) [
    | none ↦ pure none
    | some temp ↦
        if ltb os.max_path (gl.prefix_len + temp + 1)
        then pure (some (long_path_error, [], gl))
        else (do
          r ← win_advance gl
          pure (
              if leb gl.prefix_len (length gl.pattern)
              then some (r.0, take gl.prefix_len gl.pattern ++ take (temp + 1) gl.found, r.1)
              else none))
  ]

  unfoldable pub win_glob_close : WinGlob → Step S (Unit {0})
  win_glob_close gl = do r ← os.find_close gl.dir; pure tt

unfoldable pub win_current_name : WinDir → List ℕ
win_current_name d = d.found
