-- ===== src/LinkedList/Refine.antt =====
-- The list of lib/spr_list.c against what it is to its user, over any sequence of its operations.
use mathlib.Core.Option.{some, some-injective, none-ne-some}
use spr.Base.{
  ℕ, zero, suc, ◌+◌, ◌≤◌, ◌≡◌, refl, sym, ap, subst, ◌∙◌, List, [], ◌∷◌, ◌++◌, map, length,
  length-append, All, arith,
}
use spr.Base.Int.{ℤ}
use spr.Mutex.{success}
use spr.Sys.{System, World, Cmd, pure, ◌>>=◌, Returns, returns, Returns-bind, Returns-mono}
use spr.LinkedList.{SprList}
use spr.LinkedList.Node.{Heap}
use spr.LinkedList.Push.{push_back, push_front}
use spr.LinkedList.Remove.{remove}
use spr.LinkedList.Seg.{Cells}
use spr.LinkedList.Inv.{IsList}
use spr.LinkedList.KeepPush.{push_back-IsList, push_front-IsList}
use spr.LinkedList.Spec.{
  same, take_out, map-some, chain_some, length-take_out, take_out-map, Op, add_back, add_front,
  take, Items, apply, apply_all,
}
use spr.LinkedList.Walk.{item_of}
use spr.LinkedList.Take.{take_out-IsList}

-- A client that makes the calls in turn, and keeps what each reports.
unfoldable pub run_op : System → ℕ → Op → SprList → Heap → Cmd (ℤ × SprList × Heap)
run_op sys fuel (add_back x) l h = push_back sys l h x
run_op sys fuel (add_front x) l h = push_front sys l h x
run_op sys fuel (take x) l h = remove fuel l h x

unfoldable pub run_all : System → ℕ → List Op → SprList → Heap → Cmd (List ℤ × SprList × Heap)
run_all sys fuel [] l h = pure ([], l, h)
run_all sys fuel (op ∷ ops) l h = do
  r ← run_op sys fuel op l h
  rest ← run_all sys fuel ops r.1 r.2
  pure (r.0 ∷ rest.0, rest.1, rest.2)

-- The list is in order, with these items and as many nodes in reserve.
pub record Represents (h : Heap) (l : SprList) (s : Items) : Type 0 where
  pub cells : Cells
  pub reserve : List ℕ
  pub in_order : IsList h l cells reserve
  pub items : s ≡ (map item_of cells, length reserve)

abbrev total : Items → ℕ
total s = length s.0 + s.1

append-map : (xs : Cells) (n x : ℕ) → map item_of (xs ++ (n, x) ∷ []) ≡ map item_of xs ++ x ∷ []
append-map [] n x = refl
append-map ((a, d) ∷ xs) n x = ap (λ l. d ∷ l) (append-map xs n x)

length-cells : (xs : Cells) → length (map item_of xs) ≡ length xs
length-cells [] = refl
length-cells (x ∷ xs) = ap suc (length-cells xs)

-- No operation takes nodes from the list and its reserve, or adds any.
apply-total : (op : Op) (s s' : Items) → apply op s ≡ some s' → total s' ≡ total s
apply-total (add_back x) ([], k) s' e = absurd (none-ne-some s' e)
apply-total (add_back x) (y ∷ ys, zero) s' e = absurd (none-ne-some s' e)
apply-total (add_back x) (y ∷ ys, suc k) s' e =
    ap (λ s. length s.0 + s.1) (sym (some-injective _ _ e))
    ∙ omega (arith, length-append ys (x ∷ []))
apply-total (add_front x) ([], k) s' e = absurd (none-ne-some s' e)
apply-total (add_front x) (y ∷ ys, zero) s' e = absurd (none-ne-some s' e)
apply-total (add_front x) (y ∷ ys, suc k) s' e =
    ap (λ s. length s.0 + s.1) (sym (some-injective _ _ e)) ∙ omega arith
apply-total (take x) (ys, k) s' e =
    let (zs, f, g) = map-some (λ l. (l, suc k)) (take_out same x ys) s' e in
    ap (λ s. length s.0 + s.1) g ∙ omega (arith, length-take_out same x ys zs f)

module _ (sys : System) (fuel : ℕ) (h : Heap) (l : SprList) (w : World) where
  Stepped : Items → ℤ × SprList × Heap → World → Type 0
  Stepped s r w' = (r.0 ≡ success) × Represents r.2 r.1 s

  pushed :
      (cells : Cells) (reserve : List ℕ) (items : List ℕ) (r : ℤ × SprList × Heap) (s' : Items)
      → map item_of cells ≡ items
      → some (items, length reserve) ≡ some s'
      → (r.0 ≡ success) × IsList r.2 r.1 cells reserve
      → (r.0 ≡ success) × Represents r.2 r.1 s'
  pushed cells reserve items r s' same e (done, is) = (
    done,
    record {
      cells = cells;
      reserve = reserve;
      in_order = is;
      items = sym (some-injective _ _ e) ∙ ap (λ m. (m, length reserve)) (sym same);
    },
  )

  run_op-at :
      (op : Op) (xs : Cells) (fs : List ℕ) (s' : Items)
      → IsList h l xs fs
      → length xs ≤ fuel
      → apply op (map item_of xs, length fs) ≡ some s'
      → Returns (λ r w'. (r.0 ≡ success) × Represents r.2 r.1 s') (run_op sys fuel op l h w)
  unfolding run_op
  run_op-at (add_back x) [] fs s' is enough e = absurd (none-ne-some s' e)
  run_op-at (add_back x) ((a, d) ∷ xs) [] s' is enough e = absurd (none-ne-some s' e)
  run_op-at (add_back x) ((a, d) ∷ xs) (n ∷ fs) s' is enough e =
      Returns-mono (push_back-IsList sys h l w a d xs n fs is x) (λ r w'.
        pushed ((a, d) ∷ (xs ++ (n, x) ∷ [])) fs (d ∷ (map item_of xs ++ x ∷ [])) r s'
          (ap (λ m. d ∷ m) (append-map xs n x)) e)
  run_op-at (add_front x) [] fs s' is enough e = absurd (none-ne-some s' e)
  run_op-at (add_front x) ((a, d) ∷ xs) [] s' is enough e = absurd (none-ne-some s' e)
  run_op-at (add_front x) ((a, d) ∷ xs) (n ∷ fs) s' is enough e =
      Returns-mono (push_front-IsList sys h l w a d xs n fs is x)
        (λ r w'. pushed ((n, x) ∷ (a, d) ∷ xs) fs (x ∷ d ∷ map item_of xs) r s' refl e)
  run_op-at (take x) xs fs s' is enough e =
      let (ys, f, g) =
        map-some (λ m. (m, suc (length fs))) (take_out same x (map item_of xs)) s' e in
      let (zs, u, v) =
        map-some (map item_of) (take_out item_of x xs) ys (take_out-map item_of x xs ∙ f) in
      Returns-mono (take_out-IsList l h w fuel x xs fs is enough zs u)
        (λ r w' q. pushed zs (q.1 ∷ fs) ys r s' (sym v) (ap some (sym g)) (q.0, q.2))

-- A client of a list that is in order makes any sequence of `spr_list_push_back`,
-- `spr_list_push_front` and `spr_list_remove`, each of which applies to what the list then is: a push
-- finds it with an item and a node in reserve, a removal with two items or more of which one is the
-- data. Then every call ends without fault and reports SPR_OK, and afterwards the list is in order
-- again, with the items and the number of reserve nodes that the same sequence on a plain sequence
-- of items gives: a push adds its item at that end, a removal takes the first item if it is the data,
-- else the last if that is, else the first that is. The fuel is as many steps as there are nodes.
pub run_all-apply_all :
    (sys : System) (fuel : ℕ) (ops : List Op) (l : SprList) (h : Heap) (w : World) (s s' : Items)
    → Represents h l s
    → length s.0 + s.1 ≤ fuel
    → apply_all ops s ≡ some s'
    → Returns
        (λ r w'. All (λ c. c ≡ success) r.0 × Represents r.2 r.1 s')
        (run_all sys fuel ops l h w)
unfolding run_all
run_all-apply_all sys fuel [] l h w s s' rep enough e =
    returns (tt, subst (Represents h l) (some-injective s s' e) rep)
run_all-apply_all sys fuel (op ∷ ops) l h w s s' rep enough e =
    let (t, f, g) = chain_some (apply op s) (apply_all ops) s' e in
    let kept : length t.0 + t.1 ≤ fuel = omega (arith, enough, apply-total op s t f) in
    let first : apply op (map item_of rep.cells, length rep.reserve) ≡ some t =
      subst (λ m. apply op m ≡ some t) rep.items f in
    let room : length rep.cells ≤ fuel =
      omega (arith, enough, ap (λ m. length m.0) rep.items, length-cells rep.cells) in
    Returns-bind (run_op-at sys fuel h l w op rep.cells rep.reserve t rep.in_order room first)
      (λ r w' (done, rep').
        Returns-bind (run_all-apply_all sys fuel ops r.1 r.2 w' t s' rep' kept g)
          (λ rest w'' (all, last). returns ((done, all), last)))
