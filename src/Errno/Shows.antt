-- ===== src/Errno/Shows.antt =====
-- What the buffer holds after lib/spr_errno.c has written a message to it.
use spr.Base.{
  ℕ, zero, suc, ◌+◌, ◌-◌, ◌≤◌, ◌<◌, ◌≡◌, ◌⊎◌, refl, sym, subst, ◌∙◌, true, false, List, [], ◌∷◌,
  ◌++◌, length, length-take, take_all, length-append, get_elem?, get_elem?-left, take, ltb, ◌==◌,
  arith, Bool-cases, inl, inr,
}
use spr.Memory.Contents.{
  memmove-take, byte_at, Reads, stored-Reads, stored_elsewhere, Reads-append, Reads-kept,
}
use spr.Str.{IsText}
use spr.Str.Copy.Wrote.{stored-Wrote, Wrote-behind, measured_lem, memmove_lem, c_string}
use spr.Sys.{stored, World, record_event, Returns, returns}
use spr.Errno.{copy_message}

-- the part of a text that a buffer holds beside the terminator
abbrev pub shown : ℕ → List ℕ → List ℕ
shown bufsize text = take (bufsize - 1) text

get_elem?-take : (n : ℕ) (xs : List ℕ) (i : ℕ) → i < n → get_elem? (take n xs) i ≡ get_elem? xs i
get_elem?-take zero xs i h = absurd (omega arith)
get_elem?-take (suc n) [] i h = refl
get_elem?-take (suc n) (x ∷ xs) zero h = refl
get_elem?-take (suc n) (x ∷ xs) (suc i) h = get_elem?-take n xs i (omega arith)

-- The buffer shows a text: it stands there as far as there is room, terminated, and nothing but the
-- buffer was written.
pub record Shows (buf bufsize : ℕ) (text : List ℕ) (w w' : World) : Type 0 where
  pub reads : Reads w'.log buf (c_string (shown bufsize text))
  pub elsewhere : (a : ℕ) → (a < buf) ⊎ (buf + bufsize ≤ a) → byte_at a w'.log ≡ byte_at a w.log

-- The text fits.
whole-Shows :
    (buf bufsize : ℕ) (text : List ℕ) (w : World)
    → length text < bufsize
    → Shows buf bufsize text w
        (record_event (stored (buf + length text) (0 ∷ [])) (record_event (stored buf text) w))
whole-Shows buf bufsize text w h =
    let w1 = record_event (stored buf text) w in
    let v = Wrote-behind (stored-Wrote buf text w) (stored-Wrote (buf + length text) (0 ∷ []) w1) in
    let n = length-append text (0 ∷ []) in
    record {
      reads = rw (take_all (bufsize - 1) text (omega (arith, h))) v.reads;
      elsewhere = λ a l. v.elsewhere a (outside a l n);
    }
  where
    outside :
        (a : ℕ)
        → (a < buf) ⊎ (buf + bufsize ≤ a)
        → length (text ++ 0 ∷ []) ≡ length text + 1
        → (a < buf) ⊎ (buf + length (text ++ 0 ∷ []) ≤ a)
    outside a (inl l) n = inl l
    outside a (inr l) n = inr (omega arith)

-- The text is cut off.
cut-Shows :
    (buf bufsize : ℕ) (text rest : List ℕ) (w : World)
    → 0 < bufsize
    → bufsize ≤ length text
    → Shows buf bufsize text w (
        record_event
          (stored (buf + (bufsize - 1)) (0 ∷ []))
          (record_event (stored buf (take bufsize (text ++ rest))) w))
cut-Shows buf bufsize text rest w p h =
    let src = text ++ rest in
    let len = length-append text rest in
    let k = length-take bufsize src (omega (arith, h, len)) in
    let m = length-take (bufsize - 1) text (omega (arith, h)) in
    let w1 = record_event (stored buf (take bufsize src)) w in
    let w2 = record_event (stored (buf + (bufsize - 1)) (0 ∷ [])) w1 in
    let front : Reads w1.log buf (shown bufsize text) = λ i l.
      stored-Reads w.log buf (take bufsize src) i (omega (arith, k, l, m))
      ∙ get_elem?-take bufsize src i (omega (arith, l, m))
      ∙ get_elem?-left text rest i (omega (arith, l, m, h))
      ∙ sym (get_elem?-take (bufsize - 1) text i (omega (arith, l, m))) in
    record {
      reads =
          Reads-append w2.log buf (shown bufsize text) (0 ∷ [])
            (Reads-kept w1.log w2.log buf (shown bufsize text)
              (λ a g l.
                stored_elsewhere w1.log (buf + (bufsize - 1)) (0 ∷ []) a
                  (inl (omega (arith, l, m))))
              front)
            (subst (λ k. Reads w2.log (buf + k) (0 ∷ [])) (sym m)
              (stored-Reads w1.log (buf + (bufsize - 1)) (0 ∷ [])));
      elsewhere = λ a l. elim l [
        | inl b ↦
            stored_elsewhere w1.log (buf + (bufsize - 1)) (0 ∷ []) a (inl (omega (arith, b)))
            ∙ stored_elsewhere w.log buf (take bufsize src) a (inl b)
        | inr b ↦
            stored_elsewhere w1.log (buf + (bufsize - 1)) (0 ∷ []) a (inr (omega (arith, b)))
            ∙ stored_elsewhere w.log buf (take bufsize src) a (inr (omega (arith, b, k)))
      ];
    }

pub copy_message-Shows :
    (buf bufsize : ℕ) (text rest : List ℕ) (w : World)
    → IsText text
    → 0 < bufsize
    → Returns (λ _ w'. Shows buf bufsize text w w') (copy_message buf bufsize (text ++ 0 ∷ rest) w)
unfolding copy_message
copy_message-Shows buf bufsize text rest w h p = elim (Bool-cases (ltb (length text) bufsize)) [
  | inl t ↦
      rw (measured_lem text rest w h, t, memmove_lem buf text (0 ∷ rest) w)
        (returns (whole-Shows buf bufsize text w (ground (arith, t))))
  | inr t ↦
      let len = length-append text (0 ∷ rest) in
      let last : ltb (bufsize - 1) bufsize ≡ true = ground arith in
      let nz : (bufsize == 0) ≡ false = ground arith in
      rw
        (
          measured_lem text rest w h,
          t,
          nz,
          memmove-take buf (text ++ 0 ∷ rest) bufsize w (ground (arith, t, len)),
          last,
        )
        (returns (cut-Shows buf bufsize text (0 ∷ rest) w p (ground (arith, t))))
]
