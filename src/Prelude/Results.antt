-- ===== src/Prelude/Results.antt =====
-- What a C++ call may end in: a value, a thrown exception of one of the program's classes, or a
-- fault of the machine. Exception messages are left out.
use mathlib.Core.Path.{◌≡◌, refl}
use mathlib.Core.Bool.{Bool, true, false}

-- `out_of_fuel` is no behaviour of the program: a model loop ran out of rounds.
pub data Error : Type 0 where
  prog_exception worker_exception interrupted_exception : Error
  division_by_zero out_of_range : Error
  out_of_fuel : Error

pub data Result {ℓ} (A : Type ℓ) : Type ℓ where
  ok : A → Result A
  throws : Error → Result A

infixl 5 ◌>>=◌ ◌>>◌
-- `if(test) throw …;`
abbrev pub throw_if : Bool → Error → Result (Unit {0})
throw_if test e = elim test [ true ↦ throws e | false ↦ ok tt ]

-- An exception passes over the rest of the function.
abbrev pub ◌>>=◌ {ℓ κ} : {A : Type ℓ} → {B : Type κ} → Result A → (A → Result B) → Result B
throws e >>= rest = throws e
ok a >>= rest = rest a

-- A statement without a value, and the next one.
abbrev pub ◌>>◌ {κ} : {B : Type κ} → Result (Unit {0}) → Result B → Result B
first >> second = first >>= λ done. second

-- Inversion of a successful bind, for proofs where the parts stay shut.
module _ {ℓ κ} {A : Type ℓ} {B : Type κ} where
  pub >>=-eq-ok :
      (m : Result A) (rest : A → Result B) {b : B}
      → (m >>= rest) ≡ ok b
      → (a : A) × (m ≡ ok a) × (rest a ≡ ok b)
  >>=-eq-ok (throws e) rest success = cc
  >>=-eq-ok (ok a) rest success = (a, refl, success)

pub ok-injective {ℓ} : {A : Type ℓ} {x y : A} → ok x ≡ ok y → x ≡ y
ok-injective equation = cc

-- What a test that did not throw tells.
pub throw_if-false :
    (test : Bool) (e : Error) {u : Unit {0}} → throw_if test e ≡ ok u → test ≡ false
throw_if-false true e success = cc
throw_if-false false e success = refl
