-- ===== src/Memory/Contents.antt =====
-- The bytes in memory as a log describes them: what was last written to an address.
use spr.Base.{
  ℕ, ◌+◌, ◌-◌, ◌≤◌, ◌<◌, ◌⊎◌, inl, inr, ◌≡◌, ◌∙◌, sym, ap, refl, true, false, length-append,
  get_elem?-left, get_elem?-right, lt_or_ge, ◌&&◌, Bool, Option, none, some, List, [], ◌∷◌, ◌++◌,
  length, take, get_elem?, leb, ltb, if◌then◌else◌, arith,
}
use spr.Memory
use spr.Sys.{World, ok, record_event, Event, allocated, released, handled, zeroed, stored, answered}

-- Whether an address is one of the `n` from `m` on.
abbrev pub among : ℕ → ℕ → ℕ → Bool
among a m n = leb m a && ltb a (m + n)

abbrev pub byte_at : ℕ → List Event → Option ℕ
byte_at a [] = none
byte_at a (stored m bytes ∷ log) =
    let before = byte_at a log in
    if among a m (length bytes) then get_elem? bytes (a - m) else before
byte_at a (zeroed m n ∷ log) = let before = byte_at a log in if among a m n then some 0 else before
byte_at a (allocated _ _ ∷ log) = byte_at a log
byte_at a (released _ ∷ log) = byte_at a log
byte_at a (handled _ _ ∷ log) = byte_at a log
byte_at a (answered _ _ ∷ log) = byte_at a log

-- The bytes stand in memory from an address on.
abbrev pub Reads : List Event → ℕ → List ℕ → Type 0
Reads log m bytes = (i : ℕ) → i < length bytes → byte_at (m + i) log ≡ get_elem? bytes i

pub stored-Reads :
    (log : List Event) (m : ℕ) (bytes : List ℕ) → Reads (stored m bytes ∷ log) m bytes
stored-Reads log m bytes i h =
    let t : among (m + i) m (length bytes) ≡ true = ground arith in
    let e : m + i - m ≡ i = omega arith in rw (t, e) refl

-- Bytes elsewhere stay.
pub stored_elsewhere :
    (log : List Event) (m : ℕ) (bytes : List ℕ) (a : ℕ)
    → (a < m) ⊎ (m + length bytes ≤ a)
    → byte_at a (stored m bytes ∷ log) ≡ byte_at a log
stored_elsewhere log m bytes a h =
    let t : among a m (length bytes) ≡ false = ground (arith, h) in rw (t) refl

pub Reads-append :
    (log : List Event) (m : ℕ) (xs ys : List ℕ)
    → Reads log m xs
    → Reads log (m + length xs) ys
    → Reads log m (xs ++ ys)
Reads-append log m xs ys r q i h = elim (lt_or_ge i (length xs)) [
  | inl l ↦ r i l ∙ sym (get_elem?-left xs ys i l)
  | inr g ↦
      let j = i - length xs in
      let e : i ≡ length xs + j = omega (arith, g) in
      let a : m + i ≡ m + length xs + j = omega (arith, g) in
      let b = length-append xs ys in
      ap (λ k. byte_at k log) a
      ∙ q j (omega (arith, g, b))
      ∙ sym (get_elem?-right xs ys j)
      ∙ ap (get_elem? (xs ++ ys)) (sym e)
]

pub Reads-kept :
    (log log' : List Event) (m : ℕ) (xs : List ℕ)
    → ((a : ℕ) → m ≤ a → a < m + length xs → byte_at a log' ≡ byte_at a log)
    → Reads log m xs
    → Reads log' m xs
Reads-kept log log' m xs keep r i h = keep (m + i) (omega arith) (omega (arith, h)) ∙ r i h

pub memmove-take :
    (mem : ℕ) (bytes : List ℕ) (n : ℕ) (w : World)
    → n ≤ length bytes
    → Memory.memmove mem bytes n w ≡ ok tt (record_event (stored mem (take n bytes)) w)
unfolding Memory.memmove
memmove-take mem bytes n w h = let t : leb n (length bytes) ≡ true = ground arith in rw (t) refl
