-- ===== src/Filesys/Windows/Find/Fits.antt =====
-- What `spr_glob_read` of lib/spr_filesys.c (Windows) writes to a buffer of SPR_MAX_PATH_LEN bytes.

use spr.Base.{
  ℕ, ◌<◌, ◌⊎◌, false, get_elem?, ◌==◌, zero, suc, ◌+◌, ◌≤◌, ◌≡◌, refl, ap, ◌∙◌, Option, none, some,
  List, [], ◌∷◌, ◌++◌, length, length-append, take, leb, true, ltb, if◌then◌else◌, arith,
  Bool-cases, inl, inr,
}
use spr.Base.Int.{ℤ, eq_ℤ}
use spr.Mutex.{success}
use spr.Filesys.Path.{backslash}
use spr.Str.Length.{strlen}
use spr.Str.{IsText}
use spr.Str.Length.Laws.{strlen_lem}
use spr.Filesys.Windows.{Windows}
use spr.Filesys.Windows.Find.{WinGlob, last_separator, win_glob_open, win_glob_read}

length-take_le : (n : ℕ) (xs : List ℕ) → length (take n xs) ≤ n
length-take_le zero xs = omega arith
length-take_le (suc n) [] = omega arith
length-take_le (suc n) (x ∷ xs) = omega (arith, length-take_le n xs)

take_text : (text rest : List ℕ) → take (length text + 1) (text ++ 0 ∷ rest) ≡ text ++ 0 ∷ []
take_text [] rest = refl
take_text (c ∷ cs) rest =
    let n : suc (length cs) + 1 ≡ suc (length cs + 1) = omega arith in
    ap (λ m. take m (c ∷ (cs ++ 0 ∷ rest))) n ∙ ap (λ l. c ∷ l) (take_text cs rest)

get_elem?-length : (xs : List ℕ) (i c : ℕ) → get_elem? xs i ≡ some c → i < length xs
get_elem?-length [] i c e = absurd (ground (arith, e))
get_elem?-length (x ∷ xs) zero c e = omega arith
get_elem?-length (x ∷ xs) (suc i) c e = omega (arith, get_elem?-length xs i c e)

abbrev Within : List ℕ → Option ℕ → Type 0
Within pattern none = Unit {0}
Within pattern (some j) = j < length pattern

-- The last backslash is one of the bytes.
last_separator-Within : (pattern : List ℕ) (i : ℕ) → Within pattern (last_separator pattern i)
unfolding last_separator
last_separator-Within pattern zero = go (get_elem? pattern zero) refl
  where
    go : (r : Option ℕ) → get_elem? pattern zero ≡ r → Within pattern (last_separator pattern zero)
    go none e = rw (last_separator, e) tt
    go (some c) e = rw (last_separator, e) (get_elem?-length pattern zero c e)
last_separator-Within pattern (suc i) =
    go (get_elem? pattern (suc i)) refl (last_separator-Within pattern i)
  where
    go :
        (r : Option ℕ)
        → get_elem? pattern (suc i) ≡ r
        → Within pattern (last_separator pattern i)
        → Within pattern (last_separator pattern (suc i))
    go none e below = rw (last_separator, e) tt
    go (some c) e below = elim (Bool-cases (c == backslash)) [
      | inl y ↦ rw (last_separator, e, y) (get_elem?-length pattern (suc i) c e)
      | inr n ↦ rw (last_separator, e, n) below
    ]

-- A call that fails, or that leaves a prefix within the pattern.
abbrev pub Opened : Option (ℤ × WinGlob) → Type 0
Opened none = Unit {0}
Opened (some (err, gl)) = (eq_ℤ err success ≡ false) ⊎ (gl.prefix_len ≤ length gl.pattern)

-- Where `spr_glob_open` succeeds, the prefix lies within the bytes of the pattern.
pub win_glob_open-Opened :
    {S : Type 0} (os : Windows S) (gl : WinGlob) (pattern : List ℕ) (s : S)
    → Opened (win_glob_open os gl pattern s).0
unfolding win_glob_open
win_glob_open-Opened os gl pattern s =
    elim (Bool-cases (eq_ℤ (os.find_first_file pattern s).0.0 os.invalid_handle)) [
      | inl y ↦ rw (win_glob_open, y) (inl refl)
      | inr n ↦ length_known n (strlen pattern) refl
    ]
  where
    separator :
        (i : ℕ)
        → eq_ℤ (os.find_first_file pattern s).0.0 os.invalid_handle ≡ false
        → strlen pattern ≡ some i
        → (r : Option ℕ) → last_separator pattern i ≡ r
        → Within pattern r
        → Opened (win_glob_open os gl pattern s).0
    separator i n e none f b = rw (win_glob_open, n, e, f) tt
    separator i n e (some zero) f b = rw (win_glob_open, n, e, f) (inl refl)
    separator i n e (some (suc j)) f b = rw (win_glob_open, n, e, f) (inr (omega (arith, b)))

    length_known :
        eq_ℤ (os.find_first_file pattern s).0.0 os.invalid_handle ≡ false
        → (r : Option ℕ) → strlen pattern ≡ r
        → Opened (win_glob_open os gl pattern s).0
    length_known n none e = rw (win_glob_open, n, e) tt
    length_known n (some i) e =
        separator i n e (last_separator pattern i) refl (last_separator-Within pattern i)

-- A call that ends, with at most `most` bytes written, of which `res` tells what they are.
abbrev pub Wrote : ℕ → List ℕ → Option (ℤ × List ℕ × WinGlob) → Type 0
Wrote most res none = ⊥
Wrote most res (some (err, bytes, gl')) = (bytes ≡ res) × (length bytes ≤ most)

-- The path, where there is one and it fits.
abbrev pub next_path : (most : ℕ) → WinGlob → (name : List ℕ) → List ℕ
next_path most gl name =
    if gl.finished
    then []
    else if ltb most (gl.prefix_len + length name + 1)
    then []
    else take gl.prefix_len gl.pattern ++ (name ++ 0 ∷ [])

-- `spr_glob_read` on Windows, where the name that was found is a C string and the prefix lies within the
-- bytes of the pattern, ends without an access out of bounds, and with any answer of the system: it writes nothing if the paths are used up or if this
-- one does not fit, else the prefix of the pattern, the name and the terminator, which is never more
-- than SPR_MAX_PATH_LEN bytes.
pub win_glob_read-Wrote :
    {S : Type 0} (os : Windows S) (gl : WinGlob) (name rest : List ℕ) (s : S)
    → gl.found ≡ name ++ 0 ∷ rest
    → IsText name
    → gl.prefix_len ≤ length gl.pattern
    → Wrote os.max_path (next_path os.max_path gl name) (win_glob_read os gl s).0
unfolding win_glob_read
win_glob_read-Wrote os gl name rest s found text le =
    let whole : leb gl.prefix_len (length gl.pattern) ≡ true = ground (arith, le) in
    let n = strlen_lem name rest text in
    let front = length-take_le gl.prefix_len gl.pattern in
    let all = length-append (take gl.prefix_len gl.pattern) (name ++ 0 ∷ []) in
    let back = length-append name (0 ∷ []) in
    elim (Bool-cases gl.finished) [
      | inl y ↦ rw (win_glob_read, y) (refl, omega arith)
      | inr f ↦ elim (Bool-cases (ltb os.max_path (gl.prefix_len + length name + 1))) [
        | inl y ↦ rw (win_glob_read, f, found, n, y) (refl, omega arith)
        | inr m ↦
            rw (win_glob_read, f, found, n, m, whole, found, take_text name rest)
              (refl, ground (arith, m, front, all, back))
      ]
    ]
