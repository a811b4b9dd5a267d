-- ===== src/Prelude/Lists.antt =====
-- Lists measured by native numbers, under the library's names, and predicates on their items.
use Prim.Native.Nat.{ℕ, zero, suc, ◌+◌, ◌≤◌}
use mathlib.Core.Path.{◌≡◌, refl, ap}
use mathlib.Core.Bool.{Bool, true, false, ◌||◌}
use mathlib.Core.List.{List, [], ◌∷◌, ◌++◌}
use squish.Prelude.Tests.{or-eq-true, or-true}
use mathlib.Core.Logic.{inl, inr}
use native.Mathlib.Omega.{arith}

module _ {ℓ} {A : Type ℓ} where
  abbrev pub length : List A → ℕ
  length [] = 0
  length (x ∷ xs) = suc (length xs)

  abbrev pub take : ℕ → List A → List A
  take zero xs = []
  take (suc n) [] = []
  take (suc n) (x ∷ xs) = x ∷ take n xs

  abbrev pub drop : ℕ → List A → List A
  drop zero xs = xs
  drop (suc n) [] = []
  drop (suc n) (x ∷ xs) = drop n xs

  abbrev pub replicate : ℕ → A → List A
  replicate zero a = []
  replicate (suc n) a = a ∷ replicate n a

  abbrev pub All {κ} : (A → Type κ) → List A → Type κ
  All P [] = Unit
  All P (x ∷ xs) = P x × All P xs

  abbrev pub is_empty : List A → Bool
  is_empty [] = true
  is_empty (x ∷ xs) = false

  -- `Iterator::any`.
  abbrev pub any : (A → Bool) → List A → Bool
  any p [] = false
  any p (x ∷ xs) = p x || any p xs

module _ {ℓ} {A : Type ℓ} where
  pub length-append : (xs ys : List A) → length (xs ++ ys) ≡ length xs + length ys
  length-append [] ys = omega arith
  length-append (x ∷ xs) ys = omega (arith, length-append xs ys)

  pub take-length-append : (xs ys : List A) → take (length xs) (xs ++ ys) ≡ xs
  take-length-append [] ys = refl
  take-length-append (x ∷ xs) ys = ap (◌∷◌ x) (take-length-append xs ys)

  pub take-all : (n : ℕ) (xs : List A) → length xs ≤ n → take n xs ≡ xs
  take-all zero [] h = refl
  take-all zero (x ∷ xs) h = absurd (omega arith)
  take-all (suc n) [] h = refl
  take-all (suc n) (x ∷ xs) h = ap (◌∷◌ x) (take-all n xs (omega arith))

  pub take-full : (n : ℕ) (xs ys : List A) → length xs ≡ n → take n (xs ++ ys) ≡ xs
  take-full n xs ys h = rw (← h) (take-length-append xs ys)

  pub length-drop : (n : ℕ) (xs : List A) → length (drop n xs) ≤ length xs
  length-drop zero xs = omega arith
  length-drop (suc n) [] = omega arith
  length-drop (suc n) (x ∷ xs) = let less = length-drop n xs in omega (arith, less)

  pub take-append-drop : (n : ℕ) (xs : List A) → take n xs ++ drop n xs ≡ xs
  take-append-drop zero xs = refl
  take-append-drop (suc n) [] = refl
  take-append-drop (suc n) (x ∷ xs) = ap (◌∷◌ x) (take-append-drop n xs)

  pub drop-length-append : (xs ys : List A) → drop (length xs) (xs ++ ys) ≡ ys
  drop-length-append [] ys = refl
  drop-length-append (x ∷ xs) ys = drop-length-append xs ys

  pub All-append {κ} : (P : A → Type κ) (xs ys : List A) → All P xs → All P ys → All P (xs ++ ys)
  All-append P [] ys hx hy = hy
  All-append P (x ∷ xs) ys hx hy = (hx.0, All-append P xs ys hx.1 hy)

  pub append-ne-nil : (xs : List A) (y : A) → ¬ (xs ++ y ∷ [] ≡ [])
  append-ne-nil [] y e = cc
  append-ne-nil (x ∷ xs) y e = cc

  -- Two texts of one length are cut off two equal sequences in the same place.
  pub append-injective :
      (xs ys : List A) {us vs : List A}
      → length xs ≡ length ys
      → xs ++ us ≡ ys ++ vs
      → (xs ≡ ys) × (us ≡ vs)
  append-injective [] [] h e = (refl, e)
  append-injective [] (y ∷ ys) h e = absurd (omega arith)
  append-injective (x ∷ xs) [] h e = absurd (omega arith)
  append-injective (x ∷ xs) (y ∷ ys) {us} {vs} h e =
      let (p, q) = append-injective xs ys {us = us} {vs = vs} (omega arith) (cc) in (cc, q)

-- Some item has the property.
pub data Any {ℓ κ} {A : Type ℓ} (P : A → Type κ) : List A → Type (ℓ ⊔ κ) where
  here : {x : A} {xs : List A} → P x → Any P (x ∷ xs)
  there : {x : A} {xs : List A} → Any P xs → Any P (x ∷ xs)

module _ {ℓ} {A : Type ℓ} where
  pub Any-any : (p : A → Bool) (xs : List A) → any p xs ≡ true → Any (λ x. p x ≡ true) xs
  Any-any p [] h = cc
  Any-any p (x ∷ xs) h = elim (or-eq-true (p x) (any p xs) h) [
    | inl e ↦ here e
    | inr e ↦ there (Any-any p xs e)
  ]

  pub any-Any : (p : A → Bool) {xs : List A} → Any (λ x. p x ≡ true) xs → any p xs ≡ true
  any-Any p (here h) = rw h
  any-Any p (there {x = x} a) = rw (any-Any p a) (or-true (p x))

  pub Any-map {κ μ} :
      {P : A → Type κ} {Q : A → Type μ} {xs : List A} → ((x : A) → P x → Q x) → Any P xs → Any Q xs
  Any-map f (here {x = x} h) = here (f x h)
  Any-map f (there a) = there (Any-map f a)

  -- In a list whose items all have a property, any item has it.
  pub Any-All {κ μ} :
      {P : A → Type κ} {Q : A → Type μ} {xs : List A} → All P xs → Any Q xs → (x : A) × P x × Q x
  Any-All h (here {x = x} q) = (x, h.0, q)
  Any-All h (there a) = Any-All h.1 a
