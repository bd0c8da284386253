-- ===== src/Errno/Tests.antt =====
-- The theorems on messages at small buffers.
use spr.Base.{inl, inr, ℕ, ◌≡◌, refl, ◌==◌, if◌then◌else◌, List, [], ◌∷◌, arith}
use spr.Base.Int.{ℤ, pos, negsuc}
use spr.Sys.{Returns}
use spr.Str.Copy.Wrote.{c_string}
use spr.Example.{world}
use spr.Errno.{strerror}
use spr.Errno.Windows.{win_strerror}
use spr.Errno.Trimmed.Message.{says, win_strerror-Shows}
use spr.Errno.Shows.{Shows}
use spr.Errno.Laws.{message_of, strerror-Shows}

-- "no"
abbrev no_text : List ℕ
no_text = 110 ∷ 111 ∷ []

-- "Resource is busy" in six bytes
strerror-Shows_example :
    Returns
      (λ r w'. (r ≡ 8000) × Shows 8000 6 (message_of (λ _. no_text) (negsuc 1)) world w')
      (strerror (λ _. c_string no_text) (negsuc 1) 8000 6 world)
strerror-Shows_example =
    strerror-Shows (λ _. no_text) (λ _. omega arith) (negsuc 1) 8000 6 world (omega arith)

-- "no", a full stop and the end of a line; in the first language there is no message
abbrev with_full_stop : ℤ → ℕ → ℕ → ℕ × List ℕ
with_full_stop err lang bufsize =
    if lang == 0 then (5, 110 ∷ 111 ∷ 46 ∷ 13 ∷ 10 ∷ 0 ∷ []) else (0, [])

win_strerror-Shows_example :
    Returns
      (λ r w'. (r ≡ 8000) × Shows 8000 8 no_text world w')
      (win_strerror with_full_stop (pos 5) 8000 8 world)
win_strerror-Shows_example =
    win_strerror-Shows with_full_stop (pos 5) no_text 8000 8 world refl (omega arith) (
      says (110 ∷ []) (46 ∷ 13 ∷ 10 ∷ []) 111 (omega arith) (λ e. omega (arith, e))
        (inl refl, (inr (inl refl), (inr (inr refl), tt))) (omega arith))
