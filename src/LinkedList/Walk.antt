-- ===== src/LinkedList/Walk.antt =====
-- The search of `spr_list_remove` between the first node and the last.
use mathlib.Core.Option.{some, some-injective, none-ne-some}
use spr.Base.{
  ℕ, zero, suc, ◌-◌, ◌≤◌, ◌<◌, ◌≡◌, ◌≢◌, refl, sym, ap, ◌∙◌, true, false, [], ◌∷◌, ◌++◌, length,
  ◌==◌, ==_ne, ==_iff, arith, Bool-cases, inl, inr,
}
use spr.Sys.{World, ok}
use spr.LinkedList.Node.{Heap, deref}
use spr.LinkedList.Remove.{walk}
use spr.LinkedList.Seg.{Cells, last_addr, Seg}
use spr.LinkedList.KeepRemove.{is_item}
use spr.LinkedList.Spec.{erase_first, map-some}

abbrev pub item_of : ℕ × ℕ → ℕ
item_of (a, item) = item

-- The node `p` that the search stops at, and what stands around it.
pub record Found (h : Heap) (x t a : ℕ) (xs xs' : Cells) : Type 0 where
  pub front : Cells
  pub p : ℕ
  pub c : ℕ
  pub e : ℕ
  pub back : Cells
  pub split : xs ≡ front ++ (p, x) ∷ (c, e) ∷ back
  pub rest : xs' ≡ front ++ (c, e) ∷ back
  pub walks :
      (fuel : ℕ) (w : World)
      → length xs ≤ fuel
      → walk fuel (λ q g. deref (λ n. n.item == x) q g) t a h w ≡ ok (some p) w

walk_here :
    (h : Heap) (x t a : ℕ) (fuel : ℕ) (w : World)
    → 0 < fuel
    → a ≢ 0
    → is_item h x a ≡ true
    → walk fuel (λ q g. deref (λ n. n.item == x) q g) t a h w ≡ ok (some a) w
unfolding walk deref
walk_here h x t a zero w f nz i = absurd (omega arith)
walk_here h x t a (suc k) w f nz i = rw (==_ne a 0 nz, i) refl

walk_on :
    (h : Heap) (x t a b : ℕ) (fuel : ℕ) (w : World)
    → 0 < fuel
    → a ≢ 0
    → is_item h x a ≡ false
    → (h a).next ≡ b
    → b ≢ t
    → walk fuel (λ q g. deref (λ n. n.item == x) q g) t a h w
      ≡ walk (fuel - 1) (λ q g. deref (λ n. n.item == x) q g) t b h w
unfolding walk deref
walk_on h x t a b zero w f nz i e ne = absurd (omega arith)
walk_on h x t a b (suc k) w f nz i e ne =
    let on : walk (suc k) (λ q g. deref (λ n. n.item == x) q g) t a h w
        ≡ walk k (λ q g. deref (λ n. n.item == x) q g) t (h a).next h w =
      rw (==_ne a 0 nz, i, ==_ne (h a).next t (λ z. ne (sym e ∙ z))) refl in
    let less : k ≡ suc k - 1 = omega arith in
    on
    ∙ ap (λ q. walk k (λ q g. deref (λ n. n.item == x) q g) t q h w) e
    ∙ ap (λ m. walk m (λ q g. deref (λ n. n.item == x) q g) t b h w) less

-- An erased element of `x ∷ xs` that is not the first is one of `xs`.
erase_tail :
    (a i x : ℕ) (xs xs' : Cells)
    → (i == x) ≡ false
    → erase_first item_of x ((a, i) ∷ xs) ≡ some xs'
    → (ys : Cells) × (erase_first item_of x xs ≡ some ys) × (xs' ≡ (a, i) ∷ ys)
erase_tail a i x xs xs' ne e =
    map-some (λ l. (a, i) ∷ l) (erase_first item_of x xs) xs' (rw (ne) at e)

-- The last node does not have the item, so that of another is found before it.
single_clash :
    (h : Heap) (x t a i : ℕ) (xs' : Cells)
    → (h a).item ≡ i
    → t ≡ a
    → is_item h x t ≡ false
    → erase_first item_of x ((a, i) ∷ []) ≢ some xs'
single_clash h x t a i xs' s last clash e =
    let n : (i == x) ≡ false = ap (λ z. z == x) (sym s) ∙ ap (is_item h x) (sym last) ∙ clash in
    let (ys, f, g) = erase_tail a i x [] xs' n e in none-ne-some ys f

not_last :
    (h : Heap) (x t q b j : ℕ) (xs : Cells)
    → Seg h q b ((b, j) ∷ xs) 0
    → t ≡ last_addr b xs
    → is_item h x t ≡ false
    → (h t).next ≡ 0
    → (ys : Cells) → erase_first item_of x ((b, j) ∷ xs) ≡ some ys
    → b ≢ t
not_last h x t q b j [] s last clash ends ys e z = single_clash h x t b j ys s.2 last clash e
not_last h x t q b j ((c, k) ∷ xs) s last clash ends ys e z =
    s.4.1 (sym s.4.0 ∙ ap (λ n. (h n).next) z ∙ ends)

-- Where a node between the first and the last has the item, the search finds the first such one.
pub walk_finds :
    (h : Heap) (x t q a i : ℕ) (xs : Cells)
    → Seg h q a ((a, i) ∷ xs) 0
    → t ≡ last_addr a xs
    → is_item h x t ≡ false
    → (h t).next ≡ 0
    → (xs' : Cells) → erase_first item_of x ((a, i) ∷ xs) ≡ some xs'
    → Found h x t a ((a, i) ∷ xs) xs'
walk_finds h x t q a i [] s last clash ends xs' e =
    absurd (single_clash h x t a i xs' s.2 last clash e)
walk_finds h x t q a i ((b, j) ∷ xs) (s0, s1, s2, s3, s4) last clash ends xs' e =
    elim (Bool-cases (i == x)) [
      | inl y ↦ record {
        front = [];
        p = a;
        c = b;
        e = j;
        back = xs;
        split = ap (λ k. (a, k) ∷ (b, j) ∷ xs) ((==_iff i x).0 y);
        rest = sym (some-injective _ _ ((rw (y) at e)));
        walks =
            λ fuel w f. walk_here h x t a fuel w (omega (arith, f)) s1 (ap (λ z. z == x) s2 ∙ y);
      }
      | inr n ↦
          let (ys, f, g) = erase_tail a i x ((b, j) ∷ xs) xs' n e in
          let next : Seg h a b ((b, j) ∷ xs) 0 = (refl, s4.1, s4.2, s4.3, s4.4) in
          let ih = walk_finds h x t a b j xs next last clash ends ys f in
          record {
            front = (a, i) ∷ ih.front;
            p = ih.p;
            c = ih.c;
            e = ih.e;
            back = ih.back;
            split = ap (λ l. (a, i) ∷ l) ih.split;
            rest = g ∙ ap (λ l. (a, i) ∷ l) ih.rest;
            walks = λ fuel w k.
                walk_on h x t a b fuel w (omega (arith, k)) s1 (ap (λ z. z == x) s2 ∙ n) s4.0
                  (not_last h x t a b j xs next last clash ends ys f)
                ∙ ih.walks (fuel - 1) w (omega (arith, k));
          }
    ]
