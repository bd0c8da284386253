-- ===== src/Filesys/Path/Laws.antt =====
-- What `spr_file_full_path` and `spr_check_absolute_path` of lib/spr_filesys.c do with C strings.
use spr.Base.{
  ℕ, suc, ◌+◌, ◌≡◌, refl, sym, ap, ◌∙◌, true, false, Option, none, some, List, [], ◌∷◌, ◌++◌,
  get_elem?, length, length-append, take, take_front, ◌==◌, if◌then◌else◌, arith, Bool-cases, inl,
  inr,
}
use mathlib.Core.List.{append_assoc}
use spr.Str.{IsText}
use spr.Str.Length.{strlen}
use spr.Str.Length.Laws.{strlen_lem}
use spr.Filesys.Path.{FullPath, copy_path, join_path, full_path}

-- A path without its last byte if that is a separator.
abbrev pub stem : ℕ → List ℕ → List ℕ
stem separator [] = []
stem separator (c ∷ []) = if c == separator then [] else c ∷ []
stem separator (c ∷ d ∷ cs) = c ∷ stem separator (d ∷ cs)

-- The path of the file in the directory; there is none for an empty path.
abbrev pub joined : ℕ → (path file : List ℕ) → Option (List ℕ)
joined separator [] file = none
joined separator (c ∷ cs) file = some (stem separator (c ∷ cs) ++ separator ∷ file)

-- The text with its length and the terminator.
abbrev pub shown : Option (List ℕ) → Option FullPath
shown none = none
shown (some text) = some (record { copied = length text; buf = text ++ 0 ∷ [] })

abbrev last_byte : ℕ → List ℕ → ℕ
last_byte c [] = c
last_byte c (d ∷ cs) = last_byte d cs

get_elem?-last :
    (c : ℕ) (cs rest : List ℕ) → get_elem? (c ∷ cs ++ rest) (length cs) ≡ some (last_byte c cs)
get_elem?-last c [] rest = refl
get_elem?-last c (d ∷ cs) rest = get_elem?-last d cs rest

-- The path that is copied where it ends with a separator, and where it does not.
take_spared :
    (separator c : ℕ) (cs rest : List ℕ)
    → (last_byte c cs == separator) ≡ true
    → (take (length cs) (c ∷ cs ++ rest) ≡ stem separator (c ∷ cs))
      × (length (stem separator (c ∷ cs)) ≡ length cs)
take_spared separator c [] rest e = rw (e) (refl, refl)
take_spared separator c (d ∷ cs) rest e =
    let (t, n) = take_spared separator d cs rest e in (ap (λ l. c ∷ l) t, ap suc n)

take_whole :
    (separator c : ℕ) (cs rest : List ℕ)
    → (last_byte c cs == separator) ≡ false
    → (take (suc (length cs)) (c ∷ cs ++ rest) ≡ stem separator (c ∷ cs))
      × (length (stem separator (c ∷ cs)) ≡ suc (length cs))
take_whole separator c [] rest e = rw (e) (refl, refl)
take_whole separator c (d ∷ cs) rest e =
    let (t, n) = take_whole separator d cs rest e in (ap (λ l. c ∷ l) t, ap suc n)

-- What the copies leave, where the first of them is the stem.
copy_path-shown :
    (separator n : ℕ) (path text file rest : List ℕ)
    → (take n path ≡ text) × (length text ≡ n)
    → copy_path separator n (length file) path (file ++ rest) ≡ record {
      copied = length (text ++ separator ∷ file);
      buf = (text ++ separator ∷ file) ++ 0 ∷ [];
    }
copy_path-shown separator n path text file rest (t, e) =
    let count : n + 1 + length file ≡ length (text ++ separator ∷ file) =
      omega (arith, e, length-append text (separator ∷ file)) in
    let bytes : take n path ++ separator ∷ (take (length file) (file ++ rest) ++ 0 ∷ [])
        ≡ (text ++ separator ∷ file) ++ 0 ∷ [] =
      rw (t, take_front file rest) (sym (append_assoc text (separator ∷ file) (0 ∷ []))) in
    let with_buf : List ℕ → FullPath = λ m. record { copied = n + 1 + length file; buf = m } in
    let with_count : ℕ → FullPath =
      λ m. record { copied = m; buf = (text ++ separator ∷ file) ++ 0 ∷ [] } in
    ap with_buf bytes ∙ ap with_count count

full_path_run :
    (separator m n : ℕ) (path file : List ℕ)
    → strlen path ≡ some m
    → strlen file ≡ some n
    → full_path separator path file ≡ join_path separator m n path file
unfolding full_path
full_path_run separator m n path file e f = rw (full_path, e, f) refl

join_path_run :
    (separator last n k : ℕ) (path file : List ℕ)
    → get_elem? path n ≡ some last
    → join_path separator (suc n) k path file
      ≡ some (copy_path separator (if last == separator then n else suc n) k path file)
unfolding join_path
join_path_run separator last n k path file e = rw (join_path, e) refl

-- `spr_file_full_path` of two C strings writes the path, without a separator at its end, one
-- separator, the file and the terminator, and returns the length of all that without the terminator;
-- with an empty path it reads the byte before it.
pub full_path_lem :
    (separator : ℕ) (path file r r' : List ℕ)
    → IsText path
    → IsText file
    → full_path separator (path ++ 0 ∷ r) (file ++ 0 ∷ r') ≡ shown (joined separator path file)
unfolding join_path
full_path_lem separator [] file r r' h k =
    full_path_run separator 0 (length file) (0 ∷ r) (file ++ 0 ∷ r') (strlen_lem [] r tt)
      (strlen_lem file r' k)
full_path_lem separator (c ∷ cs) file r r' h k =
    let path = c ∷ cs ++ 0 ∷ r in
    let here : (n : ℕ)
        → (take n path ≡ stem separator (c ∷ cs)) × (length (stem separator (c ∷ cs)) ≡ n)
        → some (copy_path separator n (length file) path (file ++ 0 ∷ r'))
          ≡ shown (joined separator (c ∷ cs) file) =
      λ n t. ap some (copy_path-shown separator n path (stem separator (c ∷ cs)) file (0 ∷ r') t) in
    full_path_run separator (suc (length cs)) (length file) path (file ++ 0 ∷ r')
      (strlen_lem (c ∷ cs) r h) (strlen_lem file r' k)
    ∙ join_path_run separator (last_byte c cs) (length cs) (length file) path (file ++ 0 ∷ r')
        (get_elem?-last c cs (0 ∷ r))
    ∙ elim (Bool-cases (last_byte c cs == separator)) [
      | inl y ↦ rw (y) (here (length cs) (take_spared separator c cs (0 ∷ r) y))
      | inr n ↦ rw (n) (here (suc (length cs)) (take_whole separator c cs (0 ∷ r) n))
    ]
