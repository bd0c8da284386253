-- ===== src/Filesys/Path.antt =====
-- Paths in lib/spr_filesys.c, for POSIX and for Windows. A path is the bytes from its address on; a
-- read before or behind them is undefined behaviour, `none`.
pub mod Laws
use spr.Base.{
  ℕ, zero, suc, ◌+◌, ◌-◌, ◌≤◌, Bool, true, false, ◌&&◌, ◌||◌, Option, none, some, List, [], ◌∷◌,
  ◌++◌, get_elem?, length, take, ltb, leb, ◌==◌, if◌then◌else◌,
}
use spr.Base.Int.{ℤ, pos}
use spr.Base.Word
use spr.Mutex.{success}
use spr.Str.Length.{strlen}

-- `SPR_PATH_SEPARATOR` of POSIX and of Windows
abbrev pub slash : ℕ
slash = 47

abbrev pub backslash : ℕ
backslash = 92

-- `SPR_ERR_FILESYS_ABS_PATH` and `SPR_ERR_FILESYS_LONG_PATH` of include/spr_errno.h
abbrev pub abs_path_error : ℤ
abs_path_error = pos 20101

abbrev pub long_path_error : ℤ
long_path_error = pos 20102

-- What `spr_file_full_path` writes to its buffer, from its first byte on, and the length it returns.
pub record FullPath : Type 0 where
  pub copied : ℕ
  pub buf : List ℕ

-- The copies: the path less `spared` bytes, the separator, the file and a terminator.
abbrev pub copy_path : (separator path_len file_len : ℕ) → (path file : List ℕ) → FullPath
copy_path separator path_len file_len path file = record {
  copied = path_len + 1 + file_len;
  buf = take path_len path ++ separator ∷ (take file_len file ++ 0 ∷ []);
}

-- The test of `path[path_len - 1]`, which is read before the path if that is empty.
unfoldable pub join_path :
    (separator path_len file_len : ℕ) → (path file : List ℕ) → Option FullPath
join_path separator zero file_len path file = none
join_path separator (suc n) file_len path file = elim (get_elem? path n) [
  | none ↦ none
  | some last ↦
      some (copy_path separator (if last == separator then n else suc n) file_len path file)
]

unfoldable pub full_path : (separator : ℕ) → (path file : List ℕ) → Option FullPath
unfolding strlen join_path
full_path separator path file = elim (strlen path) [
  | none ↦ none
  | some path_len ↦ elim (strlen file) [
    | none ↦ none
    | some file_len ↦ join_path separator path_len file_len path file
  ]
]

-- `spr_is_path_has_wildcard`: 63 and 42 are `?` and `*`
unfoldable pub has_wildcard : List ℕ → Option Bool
has_wildcard [] = none
has_wildcard (c ∷ cs) =
    let rest = has_wildcard cs in
    if c == 0 then some false else if (c == 63) || (c == 42) then some true else rest

-- `spr_check_absolute_path` of POSIX
unfoldable pub check_absolute : List ℕ → Option ℤ
check_absolute [] = none
check_absolute (c ∷ cs) = some (if c == slash then success else abs_path_error)

-- `spr_isalpha`
abbrev pub is_alpha : ℕ → Bool
is_alpha c = (leb 65 c && leb c 90) || (leb 97 c && leb c 122)

-- `path[i] == c`, the test next in line where it holds, and another where it does not
abbrev pub at_is : List ℕ → ℕ → ℕ → Option Bool
at_is path i c = elim (get_elem? path i) [ none ↦ none | some b ↦ some (b == c) ]

abbrev pub and_also : Option Bool → Option Bool → Option Bool
and_also none q = none
and_also (some false) q = some false
and_also (some true) q = q

-- A drive, a colon (58) and a backslash.
unfoldable pub is_drive : List ℕ → Option Bool
is_drive path = elim (get_elem? path 0) [
  | none ↦ none
  | some c ↦ and_also (some (is_alpha c)) (and_also (at_is path 1 58) (at_is path 2 backslash))
]

-- Two backslashes.
unfoldable pub is_unc : List ℕ → Option Bool
is_unc path = and_also (at_is path 0 backslash) (at_is path 1 backslash)

-- `spr_check_absolute_path` of Windows
unfoldable pub check_absolute_windows : List ℕ → Option ℤ
unfolding is_drive is_unc
check_absolute_windows path = elim (is_drive path) [
  | none ↦ none
  | some true ↦ some success
  | some false ↦ elim (is_unc path) [
    | none ↦ none
    | some true ↦ some success
    | some false ↦ some abs_path_error
  ]
]
