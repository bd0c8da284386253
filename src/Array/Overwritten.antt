-- ===== src/Array/Overwritten.antt =====
-- What two pushes of lib/spr_array.c leave in the array.
use spr.Base.{ℕ, ◌+◌, ◌*◌, ◌≤◌, ◌<◌, ◌≡◌, refl, ap, ◌∙◌, false, List, length, take, leb, arith}
use spr.Base.Word
use spr.Base.Word.{word, add-fits, mul-fits}
use spr.Memory.Contents.{Reads, stored-Reads, memmove-take}
use spr.Mutex.{success}
use spr.Sys.{World, Returns, returns, ok, record_event, stored, ◌>>=◌}
use spr.Array.{SprArray, array_push}

-- One push into an empty array.
push_first :
    (a : SprArray) (item : List ℕ) (w : World)
    → a.n_current ≡ 0
    → 0 < a.n_total
    → a.start < word
    → a.size + 1 < word
    → a.size ≤ length item
    → array_push a item w
      ≡ ok
          (success, record a { size = a.size + 1 })
          (record_event (stored a.start (take a.size item)) w)
unfolding array_push
push_first a item w z room s e h =
    let open_ : leb a.n_total a.n_current ≡ false = ground (arith, z) in
    let at : Word.add a.start (Word.mul a.n_current a.size) ≡ a.start =
      ap (λ k. Word.add a.start (Word.mul k a.size)) z ∙ here in
    rw (open_, at, memmove-take a.start item a.size w h, add-fits a.size 1 e) refl
  where
    here : Word.add a.start (Word.mul 0 a.size) ≡ a.start
    here =
        ap (Word.add a.start) (mul-fits 0 a.size (omega arith) ∙ times)
        ∙ add-fits a.start 0 (omega arith)
        ∙ omega arith
      where
        times : 0 * a.size ≡ 0
        times = omega arith

-- Two pushes into an empty array both report success, yet the array still counts no element, the size
-- of its elements has grown by two, and the second element stands where the first one was written.
pub array_push-overwritten :
    (a : SprArray) (first second : List ℕ) (w : World)
    → a.n_current ≡ 0
    → 0 < a.n_total
    → a.start < word
    → a.size + 2 < word
    → a.size ≤ length first
    → a.size + 1 ≤ length second
    → Returns
        (λ r w'.
          (r.0 ≡ success)
          × (r.1.n_current ≡ 0)
          × (r.1.size ≡ a.size + 2)
          × Reads w'.log a.start (take (a.size + 1) second))
        ((array_push a first >>= λ r. array_push r.1 second) w)
array_push-overwritten a first second w z room s e h k =
    let a1 = record a { size = a.size + 1 } in
    let w1 = record_event (stored a.start (take a.size first)) w in
    rw
      (
        push_first a first w z room s (omega arith) h,
        push_first a1 second w1 z room s (omega arith) k,
      )
      (returns (refl, z, omega arith, stored-Reads w1.log a.start (take (a.size + 1) second)))
