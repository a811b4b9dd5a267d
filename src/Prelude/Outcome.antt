-- ===== src/Prelude/Outcome.antt =====
-- `Result<T, E>`, and the chain of its `?` operator.
use mathlib.Core.Path.{◌≡◌, refl}
use mathlib.Core.Logic.{◌⊎◌, inl, inr}
use mathlib.Core.Bool.{Bool, true, false}
use mathlib.Core.Option.{Option, none, some}

pub data Result {ℓ} (E : Type 0) (A : Type ℓ) : Type ℓ where
  ok : A → Result E A
  err : E → Result E A

-- `Option::ok_or`.
abbrev pub ok_or {ℓ} : {E : Type 0} {A : Type ℓ} → Option A → E → Result E A
ok_or (some a) e = ok a
ok_or none e = err e

-- `if !test { bail!(e) }`.
abbrev pub ensure : {E : Type 0} → Bool → E → Result E (Unit {0})
ensure test e = elim test [ true ↦ ok tt | false ↦ err e ]

-- `?`, followed by the rest of the function.
module _ {ℓ} {E : Type 0} {B : Type ℓ} where
  infixl 5 ◌>>=◌ ◌>>◌
  abbrev pub ◌>>=◌ {κ} : {A : Type κ} → Result E A → (A → Result E B) → Result E B
  err e >>= rest = err e
  ok a >>= rest = rest a

  abbrev pub ◌>>◌ : Result E (Unit {0}) → Result E B → Result E B
  first >> rest = first >>= λ done. rest

-- Both parts of a chain that succeeds have succeeded.
pub >>=-eq-ok {ℓ κ} :
    {E : Type 0} {A : Type ℓ} {B : Type κ} (first : Result E A) (rest : A → Result E B) {b : B}
    → (first >>= rest) ≡ ok b
    → (a : A) × (first ≡ ok a) × (rest a ≡ ok b)
>>=-eq-ok (err e) rest h = cc
>>=-eq-ok (ok a) rest h = (a, refl, h)

pub Result-cases {ℓ} :
    {E : Type 0} {A : Type ℓ} (r : Result E A) → ((a : A) × (r ≡ ok a)) ⊎ ((e : E) × (r ≡ err e))
Result-cases (ok a) = inl (a, refl)
Result-cases (err e) = inr (e, refl)

pub ok-injective {ℓ} :
    {E : Type 0} {A : Type ℓ} {a b : A} → ◌≡◌ {A = Result E A} (ok a) (ok b) → a ≡ b
ok-injective h = cc

pub some-injective {ℓ} : {A : Type ℓ} {a b : A} → ◌≡◌ {A = Option A} (some a) (some b) → a ≡ b
some-injective h = cc
