-- ===== src/Prelude/Checked.antt =====
-- Results of code that may raise, with the type of the exceptions as a parameter.
use short_form_studio.Prelude.{◌≡◌, refl, Bool, true, false}

pub data Result {ℓ κ} (E : Type ℓ) (A : Type κ) : Type (ℓ ⊔ κ) where
  ok : A → Result E A
  err : E → Result E A

module _ {ℓ} {E : Type ℓ} where
  infixl 8 ◌>>=◌ ◌>>◌
  -- what follows an `await` or a call runs only if that did not raise
  abbrev pub ◌>>=◌ {κ ι} : {A : Type κ} {B : Type ι} → Result E A → (A → Result E B) → Result E B
  ◌>>=◌ call rest = elim call [ err raised ↦ err raised | ok value ↦ rest value ]

  abbrev pub ◌>>◌ {κ} : {B : Type κ} → Result E (Unit {0}) → Result E B → Result E B
  ◌>>◌ call rest = elim call [ err raised ↦ err raised | ok _ ↦ rest ]

  -- if not test: raise exception
  abbrev pub require : Bool → E → Result E (Unit {0})
  require test exception = elim test [ true ↦ ok tt | false ↦ err exception ]

  -- if test: raise exception
  abbrev pub reject : Bool → E → Result E (Unit {0})
  reject test exception = elim test [ true ↦ err exception | false ↦ ok tt ]

  pub ok-injective {κ} : {A : Type κ} (a b : A) → ◌≡◌ {A = Result E A} (ok a) (ok b) → a ≡ b
  ok-injective a b h = cc

  -- A block that returns has returned at each of its steps.
  module _ {κ} {B : Type κ} {result : B} where
    pub bind-returns {ι} :
        {A : Type ι} (call : Result E A) (rest : A → Result E B)
        → call >>= rest ≡ ok result
        → (value : A) × (call ≡ ok value) × (rest value ≡ ok result)
    bind-returns (err raised) rest h = cc
    bind-returns (ok value) rest h = (value, refl, h)

    pub require-returns :
        (test : Bool) (exception : E) (rest : Result E B)
        → require test exception >> rest ≡ ok result
        → (test ≡ true) × (rest ≡ ok result)
    require-returns false exception rest h = cc
    require-returns true exception rest h = (refl, h)

    pub reject-returns :
        (test : Bool) (exception : E) (rest : Result E B)
        → reject test exception >> rest ≡ ok result
        → (test ≡ false) × (rest ≡ ok result)
    reject-returns true exception rest h = cc
    reject-returns false exception rest h = (refl, h)
