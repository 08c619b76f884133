-- ===== src/Shared/Exec.antt =====
-- Statements over a stored state: a statement may throw, and what was written before stays written
-- until a transaction around it is rolled back.
use wallet_conversion_engine.Prelude.{◌≡◌, refl}
use wallet_conversion_engine.Shared.Result.{Error, Result, ok, err}

abbrev pub Exec {ℓ} : Type ℓ → Type ℓ → Type ℓ
Exec S A = S → Result A × S

abbrev pub continue {ℓ} : {S A B : Type ℓ} → Result A → (A → Exec S B) → Exec S B
continue (ok a) f s = f a s
continue (err e) f s = (err e, s)

-- Shut, so that a chain of statements is read as one.
infixl 10 ◌>>=◌ ◌>>◌
unfoldable pub ◌>>=◌ {ℓ} : {S A B : Type ℓ} → Exec S A → (A → Exec S B) → Exec S B
◌>>=◌ m f s = continue (m s).0 f (m s).1

abbrev pub ◌>>◌ : {S B : Type 0} → Exec S (Unit {0}) → Exec S B → Exec S B
m >> n = m >>= λ _. n

abbrev pub pure {ℓ} : {S A : Type ℓ} → A → Exec S A
pure a s = (ok a, s)

abbrev pub throw {ℓ} : {S A : Type ℓ} → Error → Exec S A
throw e s = (err e, s)

abbrev pub lift {ℓ} : {S A : Type ℓ} → Result A → Exec S A
lift r s = (r, s)

-- Inversion of a statement that goes on with a value.
pub continue-eq-ok {ℓ} :
    {S A B : Type ℓ} (call : Result A) (rest : A → Exec S B) (s : S) {b : B} {s' : S}
    → continue call rest s ≡ (ok b, s')
    → (a : A) × (call ≡ ok a) × (rest a s ≡ (ok b, s'))
continue-eq-ok (ok a) rest s h = (a, refl, h)
continue-eq-ok (err problem) rest s h = cc
