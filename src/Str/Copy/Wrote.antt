-- ===== src/Str/Copy/Wrote.antt =====
-- What the copying loops of lib/spr_string.c write to memory.
use spr.Base.{
  ℕ, ◌+◌, ◌≤◌, ◌<◌, ◌≡◌, ◌⊎◌, refl, ap, ◌∙◌, true, List, [], ◌∷◌, ◌++◌, All, map, length,
  length-append, take_front, leb, arith, inl, inr,
}
use spr.Base.Word.{word, add-fits}
use spr.Memory
use spr.Memory.Contents.{byte_at, Reads, stored-Reads, stored_elsewhere, Reads-append, Reads-kept}
use spr.Memory.Live.{live}
use spr.Sys.{stored, World, ok, record_event, Returns, returns, Returns-mono}
use spr.Str.{IsText}
use spr.Str.Length.Laws.{strlen_lem}
use spr.Str.Copy.{measured, copy_all}

pub measured_lem :
    (text rest : List ℕ) (w : World)
    → IsText text
    → measured (text ++ 0 ∷ rest) w ≡ ok (length text) w
unfolding measured
measured_lem text rest w h = rw (measured, strlen_lem text rest h) refl

pub memmove_lem :
    (mem : ℕ) (bytes rest : List ℕ) (w : World)
    → Memory.memmove mem (bytes ++ rest) (length bytes) w
      ≡ ok tt (record_event (stored mem bytes) w)
unfolding Memory.memmove
memmove_lem mem bytes rest w =
    let n = length-append bytes rest in
    let t : leb (length bytes) (length (bytes ++ rest)) ≡ true = ground (arith, n) in
    rw (t, take_front bytes rest) refl

abbrev pub concat : List (List ℕ) → List ℕ
concat [] = []
concat (t ∷ ts) = t ++ concat ts

-- the text with its terminator
abbrev pub c_string : List ℕ → List ℕ
c_string t = t ++ 0 ∷ []

-- The bytes from `at` on were written, and no others; what is live stays.
pub record Wrote (at : ℕ) (bytes : List ℕ) (w w' : World) : Type 0 where
  pub reads : Reads w'.log at bytes
  pub elsewhere : (a : ℕ) → (a < at) ⊎ (at + length bytes ≤ a) → byte_at a w'.log ≡ byte_at a w.log
  pub live_kept : (a : ℕ) → live a w'.log ≡ live a w.log

pub stored-Wrote :
    (at : ℕ) (bytes : List ℕ) (w : World) → Wrote at bytes w (record_event (stored at bytes) w)
stored-Wrote at bytes w = record {
  reads = stored-Reads w.log at bytes;
  elsewhere = λ a l. stored_elsewhere w.log at bytes a l;
  live_kept = λ a. refl;
}

pub Wrote-behind :
    {at : ℕ} {xs ys : List ℕ} {w w1 w2 : World}
    → Wrote at xs w w1
    → Wrote (at + length xs) ys w1 w2
    → Wrote at (xs ++ ys) w w2
Wrote-behind {at} {xs} {ys} {w} {w1} {w2} u v =
    let n = length-append xs ys in
    record {
      reads =
          Reads-append w2.log at xs ys
            (Reads-kept w1.log w2.log at xs (λ a g l. v.elsewhere a (inl l)) u.reads) v.reads;
      elsewhere = λ a l. elim l [
        | inl b ↦ v.elsewhere a (inl (omega (arith, b))) ∙ u.elsewhere a (inl (omega (arith, b)))
        | inr b ↦
            v.elsewhere a (inr (omega (arith, b, n))) ∙ u.elsewhere a (inr (omega (arith, b, n)))
      ];
      live_kept = λ a. v.live_kept a ∙ u.live_kept a;
    }

pub copy_all-Wrote :
    (at : ℕ) (texts : List (List ℕ)) (w : World)
    → All IsText texts
    → at + length (concat texts) < word
    → Returns (λ _ w'. Wrote at (concat texts) w w') (copy_all at (map c_string texts) w)
unfolding copy_all
copy_all-Wrote at [] w h fits =
    returns (record {
      reads = λ i l. absurd (omega arith);
      elsewhere = λ a l. refl;
      live_kept = λ a. refl;
    })
copy_all-Wrote at (t ∷ ts) w h fits =
    let n = length-append t (concat ts) in
    let e = add-fits at (length t) (omega (arith, n)) in
    let w1 = record_event (stored at t) w in
    let ih = copy_all-Wrote (at + length t) ts w1 h.1 (omega (arith, n)) in
    rw (measured_lem t [] w h.0, memmove_lem at t (0 ∷ []) w, e)
      (Returns-mono ih λ _ w' v. Wrote-behind (stored-Wrote at t w) v)

-- A second piece that is written in front of a first.
pub Wrote-append :
    {at : ℕ} {xs ys : List ℕ} {w w1 w2 : World}
    → Wrote (at + length xs) ys w w1
    → Wrote at xs w1 w2
    → Wrote at (xs ++ ys) w w2
Wrote-append {at} {xs} {ys} {w} {w1} {w2} u v =
    let n = length-append xs ys in
    record {
      reads =
          Reads-append w2.log at xs ys v.reads
            (Reads-kept w1.log w2.log (at + length xs) ys (λ a g l. v.elsewhere a (inr g)) u.reads);
      elsewhere = λ a l. elim l [
        | inl b ↦ v.elsewhere a (inl b) ∙ u.elsewhere a (inl (omega (arith, b)))
        | inr b ↦
            v.elsewhere a (inr (omega (arith, b, n))) ∙ u.elsewhere a (inr (omega (arith, b, n)))
      ];
      live_kept = λ a. v.live_kept a ∙ u.live_kept a;
    }

pub c_string-append : (t rest : List ℕ) → c_string t ++ rest ≡ t ++ 0 ∷ rest
c_string-append [] rest = refl
c_string-append (x ∷ xs) rest = ap (λ l. x ∷ l) (c_string-append xs rest)
