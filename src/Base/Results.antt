-- ===== src/Base/Results.antt =====
-- The result of code that may raise: `E` stands for the exceptions of the component.
use mathlib.Core.Logic.{◌⊎◌, inl, inr}
use mathlib.Core.Path.{◌≡◌, refl}
use mathlib.Core.Bool.{Bool, true, false}
use mathlib.Core.Option.{some}

pub data Result {ℓ κ} (E : Type ℓ) (A : Type κ) : Type (ℓ ⊔ κ) where
  ok : A → Result E A
  err : E → Result E A

-- A successful constructor tells its argument.
module _ {ℓ} {A : Type ℓ} {a b : A} where
  pub some-inv : some a ≡ some b → a ≡ b
  some-inv same = cc

  pub ok-inv {κ} : {E : Type κ} → ◌≡◌ {A = Result E A} (ok a) (ok b) → a ≡ b
  ok-inv same = cc

module _ {ℓ} {E : Type ℓ} where
  infixl 5 ◌>>=◌ ◌>>◌
  -- The first exception ends the run.
  abbrev pub ◌>>=◌ {κ μ} : {A : Type κ} {B : Type μ} → Result E A → (A → Result E B) → Result E B
  err raised >>= rest = err raised
  ok value >>= rest = rest value

  abbrev pub ◌>>◌ {κ} : {B : Type κ} → Result E (Unit {0}) → Result E B → Result E B
  first >> second = first >>= λ done. second

  -- `if not condition: raise e`
  abbrev pub guard : Bool → E → Result E (Unit {0})
  guard false raised = err raised
  guard true raised = ok tt

  -- Inversion of a successful chain.
  pub >>=-eq-ok {κ μ} :
      {A : Type κ} {B : Type μ} (first : Result E A) (rest : A → Result E B) {result : B}
      → (first >>= rest) ≡ ok result
      → (value : A) × (first ≡ ok value) × (rest value ≡ ok result)
  >>=-eq-ok (err raised) rest ran = cc
  >>=-eq-ok (ok value) rest ran = (value, refl, ran)

pub Result-cases {ℓ κ} :
    {E : Type ℓ} {A : Type κ} (r : Result E A) → ((e : E) × (r ≡ err e)) ⊎ ((a : A) × (r ≡ ok a))
Result-cases (err e) = inl (e, refl)
Result-cases (ok a) = inr (a, refl)

-- The same for a chain of checks.
module _ {ℓ} {E : Type ℓ} where
  pub >>-eq-ok {κ} :
      {B : Type κ} (first : Result E (Unit {0})) (second : Result E B) {result : B}
      → (first >> second) ≡ ok result
      → (first ≡ ok tt) × (second ≡ ok result)
  >>-eq-ok (err raised) second ran = cc
  >>-eq-ok (ok done) second ran = (refl, ran)

  pub guard-eq-ok : (test : Bool) (raised : E) → guard test raised ≡ ok tt → test ≡ true
  guard-eq-ok true raised ran = refl
  guard-eq-ok false raised ran = cc
