-- ===== src/Filesys/Glob.antt =====
-- Patterns of paths in lib/spr_filesys.c for POSIX. `none` in a result is undefined behaviour.
pub mod Reads
use spr.Base.{
  ℕ, suc, ◌+◌, Option, none, some, List, [], ◌∷◌, get_elem?, length, take, leb, if◌then◌else◌,
}
use spr.Base.Int.{ℤ, pos, eq_ℤ}
use spr.Mutex.{success}
use spr.Str.Length.{strlen}
use spr.Host.{Step, pure, ◌>>=◌, done, get_errno}
use spr.Filesys.File.{Posix}

-- `spr_glob_s`: `gl_pathv`, of which `gl_pathc` is the length, the pattern and the next path
pub record SprGlob : Type 0 where
  pub pathv : List (List ℕ)
  pub pattern : Option (List ℕ)
  pub last : ℕ

module _ {S : Type 0} (os : Posix S) where
  unfoldable pub glob_open : SprGlob → List ℕ → Step S (ℤ × SprGlob)
  glob_open gl pattern = do
    r ← os.glob pattern
    if eq_ℤ r.0 (pos 0)
        then pure (success, record { pathv = r.1; pattern = some pattern; last = 0 })
        else (do err ← get_errno os.errno; pure (err, record gl { pathv = r.1 }))

  unfoldable pub glob_close : SprGlob → Step S (Unit {0})
  glob_close gl = os.globfree gl.pathv

-- What is returned, what is written to `res` from its first byte on, and the state.
abbrev pub GlobRead : Type 0
GlobRead = ℤ × List ℕ × SprGlob

unfoldable pub glob_read : SprGlob → Option GlobRead
unfolding strlen
glob_read gl =
    if leb (length gl.pathv) gl.last
    then some (done, [], gl)
    else elim (get_elem? gl.pathv gl.last) [
      | none ↦ none
      | some path ↦ elim (strlen path) [
        | none ↦ none
        | some len ↦ some (success, take (len + 1) path, record gl { last = gl.last + 1 })
      ]
    ]
