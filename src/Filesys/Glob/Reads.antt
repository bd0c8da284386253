-- ===== src/Filesys/Glob/Reads.antt =====
-- A client of lib/spr_filesys.c that reads all paths of a pattern.
use mathlib.Core.Option
use spr.Base.{
  ℕ, zero, suc, ◌+◌, ◌<◌, ◌≡◌, refl, sym, ap, ◌∙◌, true, false, Option, none, some, List, [], ◌∷◌,
  ◌++◌, map, All, get_elem?, get_elem?-right, length, length-append, take, take_all, leb,
  if◌then◌else◌, arith,
}
use mathlib.Core.List.{append_assoc}
use spr.Base.Int.{ℤ, pos, eq_ℤ}
use spr.Mutex.{success}
use spr.Str.{IsText}
use spr.Str.Length.Laws.{strlen_lem}
use spr.Host.{done}
use spr.Filesys.File.{Posix}
use spr.Filesys.Glob.{SprGlob, glob_open, glob_read}

-- The bytes of a C string.
abbrev pub c_string : List ℕ → List ℕ
c_string text = text ++ 0 ∷ []

-- `while ((err = spr_glob_read(gl, res)) == SPR_OK)`, in at most as many rounds as the first argument:
-- what each round finds in `res`, and the last answer. `none` is undefined behaviour or a round too few.
abbrev pub read_all : ℕ → SprGlob → Option (List (List ℕ) × ℤ)
read_all zero gl = none
read_all (suc rounds) gl = elim (glob_read gl) [
  | none ↦ none
  | some (err, res, gl') ↦
      let rest = Option.map (λ (r : List (List ℕ) × ℤ). (res ∷ r.0, r.1)) (read_all rounds gl') in
      if eq_ℤ err success then rest else some ([], err)
]

-- A round that has a path in front of it.
glob_read-next :
    (gl : SprGlob) (text : List ℕ)
    → leb (length gl.pathv) gl.last ≡ false
    → get_elem? gl.pathv gl.last ≡ some (c_string text)
    → IsText text
    → glob_read gl ≡ some (success, c_string text, record gl { last = gl.last + 1 })
unfolding glob_read
glob_read-next gl text more here h =
    let n : length text + 1 ≡ length (c_string text) = omega (arith, length-append text (0 ∷ [])) in
    let whole : take (length text + 1) (c_string text) ≡ c_string text =
      ap (λ m. take m (c_string text)) n
      ∙ take_all (length (c_string text)) (c_string text) (omega arith) in
    rw (glob_read, more, here, strlen_lem text [] h, whole) refl

glob_read-stop :
    (gl : SprGlob) → leb (length gl.pathv) gl.last ≡ true → glob_read gl ≡ some (done, [], gl)
unfolding glob_read
glob_read-stop gl stop = rw (glob_read, stop) refl

-- The reads of the paths behind those that were read before.
read_all-from :
    (rounds : ℕ) (gl : SprGlob) (front : List (List ℕ)) (texts : List (List ℕ))
    → gl.pathv ≡ front ++ map c_string texts
    → gl.last ≡ length front
    → All IsText texts
    → length texts < rounds
    → read_all rounds gl ≡ some (map c_string texts, done)
read_all-from zero gl front texts e f h less = absurd (omega arith)
read_all-from (suc rounds) gl front [] e f h less =
    let stop : leb (length gl.pathv) gl.last ≡ true =
      ground (arith, f, ap length e, length-append front []) in
    rw (read_all, glob_read-stop gl stop) refl
read_all-from (suc rounds) gl front (t ∷ texts) e f h less =
    let more : leb (length gl.pathv) gl.last ≡ false =
      ground (arith, f, ap length e, length-append front (map c_string (t ∷ texts))) in
    let at : gl.last ≡ length front + 0 = omega (arith, f) in
    let here : get_elem? gl.pathv gl.last ≡ some (c_string t) =
      ap (λ l. get_elem? l gl.last) e
      ∙ ap (get_elem? (front ++ map c_string (t ∷ texts))) at
      ∙ get_elem?-right front (map c_string (t ∷ texts)) 0 in
    let gl' : SprGlob = record gl { last = gl.last + 1 } in
    let ih =
      read_all-from rounds gl' (front ++ c_string t ∷ []) texts
        (e ∙ sym (append_assoc front (c_string t ∷ []) (map c_string texts)))
        (omega (arith, f, length-append front (c_string t ∷ []))) h.1 (omega (arith, less)) in
    rw (read_all, glob_read-next gl t more here h.0, ih) refl

-- Where `glob` finds a number of paths, `spr_glob_open` succeeds, and a client that calls
-- `spr_glob_read` until it does not return SPR_OK gets each path in turn, whole and terminated, then
-- SPR_DONE, in one call more than there are paths.
pub glob_open-read_all :
    {S : Type 0} (os : Posix S) (gl : SprGlob) (pattern : List ℕ) (texts : List (List ℕ)) (s : S)
    → (os.glob pattern s).0 ≡ (pos 0, map c_string texts)
    → All IsText texts
    → ((glob_open os gl pattern s).0.0 ≡ success)
      × (read_all (suc (length texts)) (glob_open os gl pattern s).0.1
          ≡ some (map c_string texts, done))
unfolding glob_open
glob_open-read_all os gl pattern texts s e h =
    rw (glob_open, e)
      (
        refl,
        read_all-from (suc (length texts))
            (record { pathv = map c_string texts; pattern = some pattern; last = 0 }) [] texts refl
            refl h (omega arith),
      )
