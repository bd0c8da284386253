-- ===== src/Filesys/Written.antt =====
-- When the loop of `spr_file_write` ends, and what it has written then.
pub mod Bytes
pub mod Contents
use spr.Base.{
  ℕ, zero, suc, ◌+◌, ◌-◌, ◌≤◌, ◌<◌, ◌≡◌, refl, ◌∙◌, false, [], ◌∷◌, ◌==◌, arith, Bool-cases, ==_iff,
  subst, inl, inr,
}
use spr.Base.Int.{pos, negsuc, eq_ℤ, pos_part}
use spr.Base.Word
use spr.Base.Word.{word, add-fits, sub-fits}
use spr.Filesys.{Journal, Kernel, Outcome, ended, write_loop, file_write}

-- A system that writes at least one byte of those it is given, and never more, and does not fail; the
-- journal notes where the bytes of each call stood in the buffer, and how many were taken.
pub record IsWriting (k : Kernel) : Type 0 where
  pub seeks : (offset : ℕ) → eq_ℤ (k.lseek offset) (negsuc 0) ≡ false
  pub works : (done : Journal) (from size : ℕ) → eq_ℤ (k.write done from size).0 (negsuc 0) ≡ false
  pub some_bytes :
      (done : Journal) (from size : ℕ) → 0 < size → 0 < pos_part (k.write done from size).0
  pub notes :
      (done : Journal) (from size : ℕ)
      → (k.write done from size).1 ≡ (from, pos_part (k.write done from size).0) ∷ done
  pub no_more : (done : Journal) (from size : ℕ) → pos_part (k.write done from size).0 ≤ size

-- The pieces of the journal lie one behind the other, from the first byte of the buffer up to `n`.
abbrev pub Covers : ℕ → Journal → Type 0
Covers n [] = n ≡ 0
Covers n ((from, count) ∷ done) = (from + count ≡ n) × Covers from done

-- All of the buffer was written, and the offset of the file moved by as much.
pub data Wrote (start size : ℕ) : Outcome → Type 0 where
  wrote :
      {n offset : ℕ} {done : Journal}
      → n ≡ size
      → offset ≡ start + size
      → Covers size done
      → Wrote start size (ended (pos n) offset done)

-- The loop has ended, and the journal of all `size` bytes satisfies the predicate.
pub data Ends (P : ℕ → Journal → Type 0) (start size : ℕ) : Outcome → Type 0 where
  ends :
      {n offset : ℕ} {done : Journal}
      → n ≡ size
      → offset ≡ start + size
      → P size done
      → Ends P start size (ended (pos n) offset done)

-- What every piece of a buffer of `total` bytes keeps up holds at the end of the loop.
module _ (k : Kernel) (lawful : IsWriting k) (total : ℕ) (P : ℕ → Journal → Type 0)
    (keep : (done : Journal) (written size : ℕ)
      → written + size ≡ total
      → P written done
      → P
          (written + pos_part (k.write done written size).0)
          ((written, pos_part (k.write done written size).0) ∷ done)) where
  pub write_loop-Ends :
      (fuel : ℕ) (done : Journal) (start written size : ℕ)
      → size < fuel
      → start + (written + size) < word
      → written + size ≡ total
      → P written done
      → Ends P start total (write_loop k fuel (start + written) written size done)
  unfolding write_loop
  write_loop-Ends zero done start written size f b all c = absurd (omega arith)
  write_loop-Ends (suc fuel) done start written size f b all c =
      let count = pos_part (k.write done written size).0 in
      let le = lawful.no_more done written size in
      let e1 : Word.add (start + written) count ≡ start + (written + count) =
        add-fits (start + written) count (omega (arith, le, b)) ∙ omega arith in
      let e2 = add-fits written count (omega (arith, le, b)) in
      let e3 = sub-fits size count le (omega (arith, b)) in
      let kept = keep done written size all c in
      let again =
        write_loop-Ends fuel ((written, count) ∷ done) start (written + count) (size - count) in
      elim (Bool-cases (count == size)) [
        | inl t ↦
            let same = (==_iff count size).0 t in
            let whole : written + count ≡ total = omega (arith, same, all) in
            rw (lawful.works done written size, lawful.notes done written size, t, e1, e2)
              (ends whole (omega (arith, whole))
                (subst (λ m. P m ((written, count) ∷ done)) whole kept))
        | inr t ↦
            let less : count < size = ground (arith, t, le) in
            let more = lawful.some_bytes done written size (omega (arith, less)) in
            rw (lawful.works done written size, lawful.notes done written size, t, e1, e2, e3)
              (again (omega (arith, f, less, more)) (omega (arith, b, less))
                (omega (arith, less, all)) kept)
      ]

-- The same of `spr_file_write`, from its call of `lseek` on.
module _ (k : Kernel) (lawful : IsWriting k) (P : ℕ → Journal → Type 0) (size : ℕ)
    (keep : (done : Journal) (written more : ℕ)
      → written + more ≡ size
      → P written done
      → P
          (written + pos_part (k.write done written more).0)
          ((written, pos_part (k.write done written more).0) ∷ done)) where
  pub file_write-Ends :
      (current offset : ℕ)
      → current + size < word
      → P 0 []
      → Ends P current size (file_write k (size + 1) current size offset [])
  unfolding file_write
  file_write-Ends current offset b c =
      let z : current + 0 ≡ current = omega arith in
      rw (lawful.seeks offset) (
        subst (λ m. Ends P current size (write_loop k (size + 1) m 0 size [])) z
          (write_loop-Ends k lawful size P keep (size + 1) [] current 0 size (omega arith)
            (omega (arith, b)) (omega arith) c))

Ends-Wrote : {start size : ℕ} {o : Outcome} → Ends Covers start size o → Wrote start size o
Ends-Wrote (ends e f c) = wrote e f c

-- `spr_file_write`, where the system takes at least one byte at each call and no call fails, ends
-- after at most one round for each byte and one more, and returns the size: the pieces that it wrote
-- cover the buffer in order, without gap or overlap, and the offset of the file has moved by the size.
pub file_write-Wrote :
    (k : Kernel)
    → IsWriting k
    → (current size offset : ℕ) → current + size < word
    → Wrote current size (file_write k (size + 1) current size offset [])
file_write-Wrote k lawful current size offset b = Ends-Wrote (
    file_write-Ends k lawful Covers size (λ done written more all c. (refl, c)) current offset b
      refl)
