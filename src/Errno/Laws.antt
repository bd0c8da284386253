-- ===== src/Errno/Laws.antt =====
-- Which message `spr_strerror` and `spr_dlerror` leave in the buffer.
use spr.Base.{
  ℕ, ◌<◌, ◌≡◌, refl, false, none, some, List, [], ◌∷◌, ◌++◌, All, map, ◌&&◌, if◌then◌else◌, arith,
  Bool-cases, inl, inr,
}
use spr.Base.Int.{ℤ, pos, eq_ℤ, ltb_ℤ}
use spr.Str.{IsText}
use spr.Str.Copy.Wrote.{c_string}
use spr.Sys.{World, Returns, returns, Returns-bind}
use spr.Errno.{find_message, domain_base, list_strerror, strerror, dlerror}
use spr.Errno.Messages.{unknown, unknown_text, entries, terminate}
use spr.Errno.Shows.{Shows, copy_message-Shows}

-- The text that a table has for an error, or else `other`.
abbrev pub listed : ℤ → List ℕ → List (ℤ × List ℕ) → List ℕ
listed err other [] = other
listed err other ((code, text) ∷ rest) =
    let next = listed err other rest in if eq_ℤ code err then text else next

-- The message of an error: the system's for its own numbers, else that of the list.
abbrev pub message_of : (ℤ → List ℕ) → ℤ → List ℕ
message_of os_text err =
    if ltb_ℤ (pos 0) err && ltb_ℤ err domain_base
    then os_text err
    else listed err unknown_text entries

abbrev IsEntry : ℤ × List ℕ → Type 0
IsEntry (code, text) = (eq_ℤ code unknown ≡ false) × IsText text

find_message-listed :
    (err : ℤ) (other : List ℕ) (table : List (ℤ × List ℕ))
    → All IsEntry table
    → find_message err (map terminate table ++ terminate (unknown, other) ∷ [])
      ≡ some (c_string (listed err other table))
unfolding find_message
find_message-listed err other [] h = ground arith
find_message-listed err other ((code, text) ∷ rest) h =
    let ih = find_message-listed err other rest h.1 in
    elim (Bool-cases (eq_ℤ code err)) [ inl e ↦ rw (e) refl | inr e ↦ rw (e, h.0.0) ih ]

listed-IsText :
    (err : ℤ) (other : List ℕ) (table : List (ℤ × List ℕ))
    → IsText other
    → All IsEntry table
    → IsText (listed err other table)
listed-IsText err other [] o h = o
listed-IsText err other ((code, text) ∷ rest) o h =
    let ih = listed-IsText err other rest o h.1 in
    elim (Bool-cases (eq_ℤ code err)) [ inl e ↦ rw (e) h.0.1 | inr e ↦ rw (e) ih ]

entries-IsEntry : All IsEntry entries
entries-IsEntry = ground arith

unknown_text-IsText : IsText unknown_text
unknown_text-IsText = omega arith

-- The message of the list of errors, or that of an unknown error.
pub list_strerror-Shows :
    (err : ℤ) (buf bufsize : ℕ) (w : World)
    → 0 < bufsize
    → Returns
        (λ r w'. (r ≡ buf) × Shows buf bufsize (listed err unknown_text entries) w w')
        (list_strerror err buf bufsize w)
unfolding list_strerror
list_strerror-Shows err buf bufsize w p =
    rw (list_strerror, find_message-listed err unknown_text entries entries-IsEntry)
      (Returns-bind
        (copy_message-Shows buf bufsize (listed err unknown_text entries) [] w
          (listed-IsText err unknown_text entries unknown_text-IsText entries-IsEntry) p)
        λ _ w' s. returns (refl, s))

-- `spr_strerror` with a buffer of at least one byte ends without fault and returns the buffer, in which
-- stands the message of the error: the system's for 1 to 19999, else that of the list of errors, or
-- that of an unknown error; it is cut off where the buffer ends, always terminated, and nothing but
-- the buffer is written.
pub strerror-Shows :
    (os_text : ℤ → List ℕ)
    → ((err : ℤ) → IsText (os_text err))
    → (err : ℤ) (buf bufsize : ℕ) (w : World) → 0 < bufsize
    → Returns
        (λ r w'. (r ≡ buf) × Shows buf bufsize (message_of os_text err) w w')
        (strerror (λ e. c_string (os_text e)) err buf bufsize w)
unfolding strerror
strerror-Shows os_text texts err buf bufsize w p =
    elim (Bool-cases (ltb_ℤ (pos 0) err && ltb_ℤ err domain_base)) [
      | inl t ↦ rw (t) (
          Returns-bind (copy_message-Shows buf bufsize (os_text err) [] w (texts err) p)
            λ _ w' s. returns (refl, s))
      | inr t ↦ rw (t) (list_strerror-Shows err buf bufsize w p)
    ]

-- `spr_dlerror` with a buffer of at least one byte ends without fault and returns the buffer, in which
-- stands the message of `dlerror`, or an empty one where that is NULL, cut off where the buffer ends
-- and terminated; nothing but the buffer is written.
pub dlerror-Shows :
    (text : List ℕ)
    → IsText text
    → (buf bufsize : ℕ) (w : World) → 0 < bufsize
    → Returns
        (λ r w'. (r ≡ buf) × Shows buf bufsize text w w')
        (dlerror (some (c_string text)) buf bufsize w)
      × Returns (λ r w'. (r ≡ buf) × Shows buf bufsize [] w w') (dlerror none buf bufsize w)
unfolding dlerror
dlerror-Shows text h buf bufsize w p = (
  Returns-bind (copy_message-Shows buf bufsize text [] w h p) λ _ w' s. returns (refl, s),
  Returns-bind (copy_message-Shows buf bufsize [] [] w tt p) λ _ w' s. returns (refl, s),
)
