-- ===== src/Str/Copy/Laws.antt =====
-- Strings made in a pool by lib/spr_string.c read back as what they were made from.
use spr.Base.{
  ℕ, ◌+◌, ◌≤◌, ◌<◌, ◌≡◌, ◌≢◌, refl, sym, ap, subst, ◌∙◌, true, false, List, [], ◌∷◌, ◌++◌, All, map,
  length, length-append, ◌==◌, if◌then◌else◌, arith, Bool-cases, inl, inr,
}
use spr.Base.Word
use spr.Base.Word.{word, add-fits}
use spr.Memory
use spr.Memory.Contents.{Reads}
use spr.Memory.Live.{IsAllocator}
use spr.Sys.{
  stored, World, System, Cmd, ok, record_event, pure, ◌>>=◌, ◌>>◌, Returns, returns, Returns-bind,
  Returns-mono,
}
use spr.Pool.{Pool}
use spr.Pool.Alloc.{palloc}
use spr.Pool.Alloc.Outcome.{Owns, Allocated}
use spr.Pool.Alloc.Safe.{slot_limit, HandsOut, palloc-Allocated}
use spr.Pool.Blocks.{IsPool}
use spr.Pool.Size.{align_allocation}
use spr.Pool.Size.Bounds.{align_allocation_fits}
use spr.Str.{IsText}
use spr.Str.Copy.{total_length, copy_all, terminated, pstrdup, pstrndup, pstrcat}
use spr.Str.Copy.Wrote.{
  Wrote, concat, c_string, measured_lem, memmove_lem, stored-Wrote, Wrote-behind, copy_all-Wrote,
  Wrote-append, c_string-append,
}

-- A call of the pool that made a string: NULL, or a block in which the bytes stand.
pub record MadeString (p : Pool) (bytes : List ℕ) (r : ℕ × Pool) (w' : World) : Type 0 where
  pub hands_out : HandsOut (align_allocation (length bytes)) p r w'
  pub fits : length bytes ≤ align_allocation (length bytes)
  pub reads : r.0 ≢ 0 → Reads w'.log r.0 bytes

zero_of : {m : ℕ} → (m == 0) ≡ true → m ≡ 0
zero_of h = ground arith

not_zero : {m : ℕ} → (m == 0) ≡ false → m ≢ 0
not_zero h = ground arith

-- What is written behind an allocation.
allocated_then :
    (sys : System)
    → IsAllocator sys
    → (bytes : List ℕ) → length bytes ≤ slot_limit
    → (p : Pool) (w : World) → IsPool p
    → Owns p w.log
    → (write : ℕ → Cmd (Unit {0}))
    → ((mem : ℕ) (w1 : World)
        → mem + length bytes < word
        → Returns (λ _ w2. Wrote mem bytes w1 w2) (write mem w1))
    → Returns (MadeString p bytes) (
        (palloc sys p (length bytes) >>= λ r.
        (if r.0 == 0 then pure (0, r.1) else do write r.0; pure (r.0, r.1)))
          w)
allocated_then sys lawful bytes le p w is own write writes =
    let fits = align_allocation_fits (length bytes) (omega (arith, le)) in
    Returns-bind (palloc-Allocated sys lawful (length bytes) le p w is own) λ r w1 al.
      elim (Bool-cases (r.0 == 0)) [
        | inl z ↦ rw (z) (
            returns record {
              hands_out =
                  subst (λ m. Allocated p (align_allocation (length bytes)) m r.1 w1.log)
                    (zero_of z) al;
              fits = omega (arith, fits);
              reads = λ h. absurd (h refl);
            })
        | inr nz ↦ rw (nz) (
            Returns-bind (writes r.0 w1 (omega (arith, (al.block (not_zero nz)).inside, fits)))
              λ u w2 v. returns (record {
                hands_out = record {
                  valid = al.valid;
                  owns = λ a. omega (arith, al.owns a, v.live_kept a);
                  block = al.block;
                  used = al.used;
                  rest = al.rest;
                };
                fits = omega (arith, fits);
                reads = λ _. v.reads;
              }))
      ]

-- `spr_pstrdup` of a terminated text of less than 81864 bytes, on a pool in order that owns live
-- memory, ends without fault with NULL or a block of the pool that is large enough and in which
-- the text and its terminator stand.
pub pstrdup-MadeString :
    (sys : System)
    → IsAllocator sys
    → (text rest : List ℕ) → IsText text
    → length (c_string text) ≤ slot_limit
    → (p : Pool) (w : World) → IsPool p
    → Owns p w.log
    → Returns (MadeString p (c_string text)) (pstrdup sys p (text ++ 0 ∷ rest) w)
unfolding pstrdup
pstrdup-MadeString sys lawful text rest h le p w is own =
    let n = length-append text (0 ∷ []) in
    let e : Word.add (length text) 1 ≡ length (c_string text) =
      add-fits (length text) 1 (omega (arith, n, le)) ∙ omega (arith, n) in
    rw (measured_lem text rest w h, e)
      (allocated_then sys lawful (c_string text) le p w is own
        (λ mem. Memory.memmove mem (text ++ 0 ∷ rest) (length (c_string text)))
        (λ mem w1 f.
          rw (sym (c_string-append text rest), memmove_lem mem (c_string text) rest w1)
            (returns (stored-Wrote mem (c_string text) w1))))

-- `spr_pstrndup` of `n` bytes that can be read, fewer than 81864, on a pool in order that owns
-- live memory, ends without fault with NULL or a block of the pool that is large enough and in
-- which those bytes and a terminator stand.
pub pstrndup-MadeString :
    (sys : System)
    → IsAllocator sys
    → (bytes rest : List ℕ) → length (c_string bytes) ≤ slot_limit
    → (p : Pool) (w : World) → IsPool p
    → Owns p w.log
    → Returns (MadeString p (c_string bytes)) (pstrndup sys p (bytes ++ rest) (length bytes) w)
unfolding pstrndup terminated
pstrndup-MadeString sys lawful bytes rest le p w is own =
    let n = length-append bytes (0 ∷ []) in
    let e : Word.add (length bytes) 1 ≡ length (c_string bytes) =
      add-fits (length bytes) 1 (omega (arith, n, le)) ∙ omega (arith, n) in
    rw (e) (
      allocated_then sys lawful (c_string bytes) le p w is own
        (λ mem. terminated mem (bytes ++ rest) (length bytes))
        (λ mem w1 f.
          let at = add-fits mem (length bytes) (omega (arith, n, f)) in
          rw (terminated, at, memmove_lem mem bytes rest w1)
            (returns (
              Wrote-behind (stored-Wrote mem bytes w1) (
                stored-Wrote (mem + length bytes) (0 ∷ []) (record_event (stored mem bytes) w1))))))

-- The lengths of the arguments add up to that of their concatenation.
total_length_lem :
    (len : ℕ) (texts : List (List ℕ)) (w : World)
    → All IsText texts
    → len + length (concat texts) < word
    → total_length len (map c_string texts) w ≡ ok (len + length (concat texts)) w
unfolding total_length
total_length_lem len [] w h f = ap (λ k. ok k w) (omega arith)
total_length_lem len (t ∷ ts) w h f =
    let n = length-append t (concat ts) in
    let e = add-fits len (length t) (omega (arith, n, f)) in
    let ih = total_length_lem (len + length t) ts w h.1 (omega (arith, n, f)) in
    rw (measured_lem t [] w h.0, e) (ih ∙ ap (λ k. ok k w) (omega (arith, n)))

-- `spr_pstrcat1` of terminated texts of less than 81864 bytes together, on a pool in order that
-- owns live memory, ends without fault with NULL or a block of the pool that is large enough and
-- in which the texts stand one behind the other, with a terminator.
pub pstrcat-MadeString :
    (sys : System)
    → IsAllocator sys
    → (texts : List (List ℕ)) → All IsText texts
    → length (c_string (concat texts)) ≤ slot_limit
    → (p : Pool) (w : World) → IsPool p
    → Owns p w.log
    → Returns (MadeString p (c_string (concat texts))) (pstrcat sys p (map c_string texts) w)
unfolding pstrcat
pstrcat-MadeString sys lawful texts h le p w is own =
    let n = length-append (concat texts) (0 ∷ []) in
    let l : 0 + length (concat texts) ≡ length (concat texts) = omega arith in
    let t = total_length_lem 0 texts w h (omega (arith, n, le)) ∙ ap (λ k. ok k w) l in
    let e : Word.add (length (concat texts)) 1 ≡ length (c_string (concat texts)) =
      add-fits (length (concat texts)) 1 (omega (arith, n, le)) ∙ omega (arith, n) in
    rw (t, e)
      (allocated_then sys lawful (c_string (concat texts)) le p w is own
        (λ mem. do
          Memory.memmove (Word.add mem (length (concat texts))) (0 ∷ []) 1
          copy_all mem (map c_string texts))
        (λ mem w1 f.
          let at = add-fits mem (length (concat texts)) (omega (arith, n, f)) in
          rw (at) (
            Returns-mono
              (copy_all-Wrote mem texts
                (record_event (stored (mem + length (concat texts)) (0 ∷ [])) w1) h
                (omega (arith, n, f)))
              λ u w2 v. Wrote-append (stored-Wrote (mem + length (concat texts)) (0 ∷ []) w1) v)))
