-- ===== src/LinkedList/Spec.antt =====
-- What the list of lib/spr_list.c is to its user: a sequence of items, and room for more.
use mathlib.Core.Option
use mathlib.Core.Option.{Option, none, some, some-injective, none-ne-some}
use spr.Base.{
  ℕ, zero, suc, List, [], ◌∷◌, ◌++◌, map, length, ◌≡◌, refl, sym, ap, ◌∙◌, inl, inr, Bool-cases,
  true, false, ◌==◌, if◌then◌else◌,
}

abbrev pub same : ℕ → ℕ
same x = x

module _ {ℓ} {A : Type ℓ} where
  -- the last of `x ∷ xs`, and those before it
  abbrev pub last_of : A → List A → A
  last_of x [] = x
  last_of x (y ∷ xs) = last_of y xs

  abbrev pub init_of : A → List A → List A
  init_of x [] = []
  init_of x (y ∷ xs) = x ∷ init_of y xs

  -- without the first element of key `k`
  abbrev pub erase_first : (A → ℕ) → ℕ → List A → Option (List A)
  erase_first key k [] = none
  erase_first key k (x ∷ xs) =
      let rest = erase_first key k xs in
      if key x == k then some xs else Option.map (λ l. x ∷ l) rest

  -- A removal takes the first element if it has the key, else the last one, else the first between
  -- them that has it; a list of one element has none to spare.
  abbrev pub take_out : (A → ℕ) → ℕ → List A → Option (List A)
  take_out key k [] = none
  take_out key k (x ∷ []) = none
  take_out key k (x ∷ y ∷ ys) =
      if key x == k
      then some (y ∷ ys)
      else if key (last_of y ys) == k
      then some (x ∷ init_of y ys)
      else Option.map (λ l. x ∷ l) (erase_first key k (y ∷ ys))

  pub init_last : (x : A) (xs : List A) → x ∷ xs ≡ init_of x xs ++ last_of x xs ∷ []
  init_last x [] = refl
  init_last x (y ∷ xs) = ap (λ l. x ∷ l) (init_last y xs)

-- What a mapped option that is there came from.
pub map-some {ℓ κ} :
    {A : Type ℓ} {B : Type κ} (f : A → B) (o : Option A) (y : B)
    → Option.map f o ≡ some y
    → (x : A) × (o ≡ some x) × (y ≡ f x)
map-some f none y e = absurd (none-ne-some y e)
map-some f (some x) y e = (x, refl, sym (some-injective (f x) y e))

-- What a chain of two steps came through.
pub chain_some {ℓ κ} :
    {A : Type ℓ} {B : Type κ} (o : Option A) (next : A → Option B) (y : B)
    → elim o [ none ↦ none | some x ↦ next x ] ≡ some y
    → (x : A) × (o ≡ some x) × (next x ≡ some y)
chain_some none next y e = absurd (none-ne-some y e)
chain_some (some x) next y e = (x, refl, e)

length-init_of {ℓ} : {A : Type ℓ} (x : A) (xs : List A) → length (init_of x xs) ≡ length xs
length-init_of x [] = refl
length-init_of x (y ∷ xs) = ap suc (length-init_of y xs)

length-erase_first {ℓ} :
    {A : Type ℓ} (key : A → ℕ) (k : ℕ) (xs ys : List A)
    → erase_first key k xs ≡ some ys
    → length xs ≡ suc (length ys)
length-erase_first key k [] ys e = absurd (none-ne-some ys e)
length-erase_first key k (x ∷ xs) ys e = elim (Bool-cases (key x == k)) [
  | inl t ↦ ap suc (ap length (some-injective xs ys (rw (t) at e)))
  | inr t ↦
      let (zs, f, g) = map-some (λ l. x ∷ l) (erase_first key k xs) ys (rw (t) at e) in
      ap suc (length-erase_first key k xs zs f) ∙ ap suc (sym (ap length g))
]

pub length-take_out {ℓ} :
    {A : Type ℓ} (key : A → ℕ) (k : ℕ) (xs ys : List A)
    → take_out key k xs ≡ some ys
    → length xs ≡ suc (length ys)
length-take_out key k [] ys e = absurd (none-ne-some ys e)
length-take_out key k (x ∷ []) ys e = absurd (none-ne-some ys e)
length-take_out key k (x ∷ y ∷ zs) ys e = elim (Bool-cases (key x == k)) [
  | inl t ↦ ap suc (ap length (some-injective (y ∷ zs) ys (rw (t) at e)))
  | inr t ↦ elim (Bool-cases (key (last_of y zs) == k)) [
    | inl u ↦ ap suc (
        ap suc (sym (length-init_of y zs))
        ∙ ap length (some-injective (x ∷ init_of y zs) ys (rw (t, u) at e)))
    | inr u ↦
        let (vs, f, g) = map-some (λ l. x ∷ l) (erase_first key k (y ∷ zs)) ys (rw (t, u) at e) in
        ap suc (length-erase_first key k (y ∷ zs) vs f) ∙ ap suc (sym (ap length g))
  ]
]

-- The operations look at the keys alone.
module _ {ℓ} {A : Type ℓ} (key : A → ℕ) where
  last_of-map : (x : A) (xs : List A) → key (last_of x xs) ≡ last_of (key x) (map key xs)
  last_of-map x [] = refl
  last_of-map x (y ∷ xs) = last_of-map y xs

  init_of-map : (x : A) (xs : List A) → map key (init_of x xs) ≡ init_of (key x) (map key xs)
  init_of-map x [] = refl
  init_of-map x (y ∷ xs) = ap (λ l. key x ∷ l) (init_of-map y xs)

  map-cons :
      (x : A) (o : Option (List A))
      → Option.map (map key) (Option.map (λ l. x ∷ l) o)
        ≡ Option.map (λ l. key x ∷ l) (Option.map (map key) o)
  map-cons x none = refl
  map-cons x (some l) = refl

  erase_first-map :
      (k : ℕ) (xs : List A)
      → Option.map (map key) (erase_first key k xs) ≡ erase_first same k (map key xs)
  erase_first-map k [] = refl
  erase_first-map k (x ∷ xs) = elim (Bool-cases (key x == k)) [
    | inl t ↦ rw (t) refl
    | inr t ↦ rw (t) (
        map-cons x (erase_first key k xs) ∙ ap (Option.map (λ l. key x ∷ l)) (erase_first-map k xs))
  ]

  pub take_out-map :
      (k : ℕ) (xs : List A)
      → Option.map (map key) (take_out key k xs) ≡ take_out same k (map key xs)
  take_out-map k [] = refl
  take_out-map k (x ∷ []) = refl
  take_out-map k (x ∷ y ∷ ys) = elim (Bool-cases (key x == k)) [
    | inl t ↦ rw (t) refl
    | inr t ↦ elim (Bool-cases (key (last_of y ys) == k)) [
      | inl u ↦
          let v : (last_of (key y) (map key ys) == k) ≡ true =
            ap (λ z. z == k) (sym (last_of-map y ys)) ∙ u in
          rw (t, u, v) (ap (λ l. some (key x ∷ l)) (init_of-map y ys))
      | inr u ↦
          let v : (last_of (key y) (map key ys) == k) ≡ false =
            ap (λ z. z == k) (sym (last_of-map y ys)) ∙ u in
          rw (t, u, v)
            (map-cons x (erase_first key k (y ∷ ys))
              ∙ ap (Option.map (λ l. key x ∷ l)) (erase_first-map k (y ∷ ys)))
    ]
  ]

pub data Op : Type 0 where
  add_back add_front take : ℕ → Op

-- The items, and how many nodes are in reserve.
abbrev pub Items : Type 0
Items = List ℕ × ℕ

-- One operation on a list that is not empty and does not become so; `none` where it does not apply.
abbrev pub apply : Op → Items → Option Items
apply (add_back x) ([], k) = none
apply (add_back x) (y ∷ ys, zero) = none
apply (add_back x) (y ∷ ys, suc k) = some (y ∷ (ys ++ x ∷ []), k)
apply (add_front x) ([], k) = none
apply (add_front x) (y ∷ ys, zero) = none
apply (add_front x) (y ∷ ys, suc k) = some (x ∷ y ∷ ys, k)
apply (take x) (ys, k) = Option.map (λ l. (l, suc k)) (take_out same x ys)

abbrev pub apply_all : List Op → Items → Option Items
apply_all [] s = some s
apply_all (op ∷ ops) s = elim (apply op s) [ none ↦ none | some s' ↦ apply_all ops s' ]
