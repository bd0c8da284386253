-- ===== src/Filesys/Written/Bytes.antt =====
-- The bytes of a file and what a write of some of them leaves, for `spr_file_write` of lib/spr_filesys.c.
use spr.Base.{ℕ, zero, suc, ◌+◌, ◌≡◌, refl, ap, ◌∙◌, List, [], ◌∷◌, ◌++◌, length, take, drop, arith}

-- A byte written at a place, behind the end with zeros up to it.
abbrev pub put : ℕ → ℕ → List ℕ → List ℕ
put zero b [] = b ∷ []
put zero b (x ∷ xs) = b ∷ xs
put (suc i) b [] = 0 ∷ put i b []
put (suc i) b (x ∷ xs) = x ∷ put i b xs

abbrev pub overwrite : List ℕ → ℕ → List ℕ → List ℕ
overwrite xs p [] = xs
overwrite xs p (b ∷ bs) = overwrite (put p b xs) (suc p) bs

pub overwrite-append :
    (xs : List ℕ) (p : ℕ) (cs bs : List ℕ)
    → overwrite (overwrite xs p cs) (p + length cs) bs ≡ overwrite xs p (cs ++ bs)
overwrite-append xs p [] bs = ap (λ m. overwrite xs m bs) (omega arith)
overwrite-append xs p (c ∷ cs) bs =
    let e : p + suc (length cs) ≡ suc p + length cs = omega arith in
    ap (λ m. overwrite (overwrite (put p c xs) (suc p) cs) m bs) e
    ∙ overwrite-append (put p c xs) (suc p) cs bs

overwrite-behind :
    (x : ℕ) (xs : List ℕ) (p : ℕ) (bs : List ℕ)
    → overwrite (x ∷ xs) (suc p) bs ≡ x ∷ overwrite xs p bs
overwrite-behind x xs p [] = refl
overwrite-behind x xs p (b ∷ bs) = overwrite-behind x (put p b xs) (suc p) bs

-- What was written at a place is read there.
read_back_start : (xs bs : List ℕ) → take (length bs) (overwrite xs 0 bs) ≡ bs
read_back_start xs [] = refl
read_back_start [] (b ∷ bs) =
    ap (take (suc (length bs))) (overwrite-behind b [] 0 bs)
    ∙ ap (λ l. b ∷ l) (read_back_start [] bs)
read_back_start (x ∷ xs) (b ∷ bs) =
    ap (take (suc (length bs))) (overwrite-behind b xs 0 bs)
    ∙ ap (λ l. b ∷ l) (read_back_start xs bs)

pub read_back :
    (xs : List ℕ) (p : ℕ) (bs : List ℕ) → take (length bs) (drop p (overwrite xs p bs)) ≡ bs
read_back xs zero bs = read_back_start xs bs
read_back xs (suc p) [] = refl
read_back (x ∷ xs) (suc p) (b ∷ bs) =
    ap (λ l. take (suc (length bs)) (drop (suc p) l)) (overwrite-behind x xs p (b ∷ bs))
    ∙ read_back xs p (b ∷ bs)
read_back [] (suc p) (b ∷ bs) =
    ap (λ l. take (suc (length bs)) (drop (suc p) l)) (overwrite-behind 0 (put p b []) (suc p) bs)
    ∙ read_back [] p (b ∷ bs)
