-- ===== src/Errno/Trimmed.antt =====
-- `trim` of Errno/Windows, the loop at the end of `spr_os_strerror` of lib/spr_errno.c for Windows.
pub mod Message
use spr.Base.{
  ℕ, ◌-◌, if◌then◌else◌, zero, suc, ◌+◌, ◌≤◌, ◌<◌, ◌≡◌, ◌⊎◌, inl, inr, refl, sym, ap, subst, ◌∙◌,
  true, false, some, List, [], ◌∷◌, ◌++◌, length, length-append, length-set, get_elem?,
  get_elem?-left, get_elem?-right, get_elem?-set, get_elem?-set_other, set, Bool, Option, none,
  ◌==◌, ◌&&◌, All, take, take_all, arith, Bool-cases, lt_or_ge,
}
use mathlib.Core.List.{append_assoc}
use spr.Base.Int.{ℤ, pos, ltb_ℤ}
use spr.Memory.Contents.{memmove-take, byte_at, Reads, stored-Reads, stored_elsewhere}
use spr.Str.Copy.Wrote.{c_string}
use spr.Memory
use spr.Sys.{Cmd, pure, fault_cmd, ◌>>=◌, ◌>>◌, ok, stored, World, record_event, Returns, returns}
use spr.Errno.{domain_base, list_strerror}
use spr.Errno.Messages.{unknown, unknown_text}
use spr.Errno.Shows.{shown, Shows}
use spr.Errno.Laws.{list_strerror-Shows}
use spr.Errno.Windows.{is_trimmed, trim, win_os_strerror, win_strerror}

-- The bytes up to `k` are kept, and those behind it up to `n` are zeros.
pub record Trimmed (k n : ℕ) (buf trimmed : List ℕ) : Type 0 where
  pub size : length trimmed ≡ length buf
  pub kept : (i : ℕ) → i ≤ k → get_elem? trimmed i ≡ get_elem? buf i
  pub cleared : (i : ℕ) → k < i → i ≤ n → get_elem? trimmed i ≡ some 0
  pub beyond : (i : ℕ) → n < i → get_elem? trimmed i ≡ get_elem? buf i

pub data Trims (k n : ℕ) (buf : List ℕ) : Option (List ℕ) → Type 0 where
  trims : {b : List ℕ} → Trimmed k n buf b → Trims k n buf (some b)

abbrev pub is_tail : Option ℕ → Bool
is_tail none = false
is_tail (some c) = is_trimmed c

trim_step :
    (n : ℕ) (buf : List ℕ)
    → is_tail (get_elem? buf (suc n)) ≡ true
    → trim (suc n) buf ≡ trim n (set buf (suc n) 0)
unfolding trim
trim_step n buf h = step (get_elem? buf (suc n)) refl h
  where
    step :
        (o : Option ℕ)
        → get_elem? buf (suc n) ≡ o
        → is_tail o ≡ true
        → trim (suc n) buf ≡ trim n (set buf (suc n) 0)
    step none e t = ground (arith, t)
    step (some c) e t = rw (trim, e, t) refl

trim_last :
    (n last : ℕ) (buf : List ℕ)
    → get_elem? buf n ≡ some last
    → is_trimmed last ≡ false
    → trim n buf ≡ some buf
unfolding trim
trim_last zero last buf e f = rw (trim, e, f) refl
trim_last (suc n) last buf e f = rw (trim, e, f) refl

stop-Trims :
    (n k last : ℕ) (buf : List ℕ)
    → k ≡ n
    → get_elem? buf k ≡ some last
    → is_trimmed last ≡ false
    → Trims k n buf (trim n buf)
stop-Trims n k last buf same e f =
    subst (Trims k n buf) (sym (trim_last n last buf (ap (get_elem? buf) (sym same) ∙ e) f)) (
      trims record {
        size = refl;
        kept = λ i d. refl;
        cleared = λ i a b. absurd (omega (arith, a, b, same));
        beyond = λ i d. refl;
      })

-- A byte behind those looked at was cleared before.
behind-Trims :
    (n k : ℕ) (buf : List ℕ) (r : Option (List ℕ))
    → k ≤ n
    → suc n < length buf
    → Trims k n (set buf (suc n) 0) r
    → Trims k (suc n) buf r
behind-Trims n k buf none h l m = elim m [ ]
behind-Trims n k buf (some b) h l (trims m) =
    let other : (i : ℕ)
        → (suc n < i) ⊎ (i < suc n)
        → get_elem? (set buf (suc n) 0) i ≡ get_elem? buf i =
      λ i d. get_elem?-set_other buf (suc n) i 0 d in
    trims record {
      size = m.size ∙ length-set buf (suc n) 0;
      kept = λ i d. m.kept i d ∙ other i (inr (omega (arith, d, h)));
      cleared = λ i a b. elim (lt_or_ge n i) [
        | inl g ↦
            let e : i ≡ suc n = omega (arith, b, g) in
            ap (get_elem? _) e ∙ m.beyond (suc n) (omega arith) ∙ get_elem?-set buf (suc n) 0 l
        | inr g ↦ m.cleared i a g
      ];
      beyond = λ i d. m.beyond i (omega (arith, d)) ∙ other i (inl d);
    }

pub trim-Trims :
    (n k last : ℕ) (buf : List ℕ)
    → k ≤ n
    → n < length buf
    → get_elem? buf k ≡ some last
    → is_trimmed last ≡ false
    → ((i : ℕ) → k < i → i ≤ n → is_tail (get_elem? buf i) ≡ true)
    → Trims k n buf (trim n buf)
trim-Trims zero k last buf h l e f t = stop-Trims zero k last buf (omega (arith, h)) e f
trim-Trims (suc n) k last buf h l e f t = elim (lt_or_ge n k) [
  | inl g ↦ stop-Trims (suc n) k last buf (omega (arith, h, g)) e f
  | inr g ↦
      let buf' = set buf (suc n) 0 in
      let size = length-set buf (suc n) 0 in
      let other : (i : ℕ) → i ≤ n → get_elem? buf' i ≡ get_elem? buf i =
        λ i d. get_elem?-set_other buf (suc n) i 0 (inr (omega (arith, d))) in
      let rest =
        trim-Trims n k last buf' g (omega (arith, l, size)) (other k g ∙ e) f
          λ i a b. ap is_tail (other i b) ∙ t i a (omega (arith, b)) in
      subst (Trims k (suc n) buf)
        (sym (trim_step n buf (t (suc n) (omega (arith, g)) (omega arith))))
        (behind-Trims n k buf (trim n buf') g l rest)
]
