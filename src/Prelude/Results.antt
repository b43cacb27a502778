-- ===== src/Prelude/Results.antt =====
-- Rust's `Result`, and `Exec`: an operation on a state that may fail, where what was written before
-- a failure stays written.
use mathlib.Core.Path.{◌≡◌, refl}
use mathlib.Core.Logic.{◌⊎◌, inl, inr}
use mathlib.Core.Option.{Option, none, some}
use mathlib.Core.Bool.{Bool, true, false}

pub data Result {ℓ κ} (E : Type ℓ) (A : Type κ) : Type (ℓ ⊔ κ) where
  ok : A → Result E A
  err : E → Result E A

-- To split on a computed result and keep the equation.
pub Result-cases {ℓ κ} :
    {E : Type ℓ} {A : Type κ} (r : Result E A) → ((a : A) × (r ≡ ok a)) ⊎ ((e : E) × (r ≡ err e))
Result-cases (ok a) = inl (a, refl)
Result-cases (err e) = inr (e, refl)

-- `o.ok_or(e)`
abbrev pub ok_or {ℓ κ} : {E : Type ℓ} {A : Type κ} → Option A → E → Result E A
ok_or none e = err e
ok_or (some a) e = ok a

-- `r.map_err(f)`
abbrev pub map_err {ℓ κ μ} :
    {E : Type ℓ} {F : Type κ} {A : Type μ} → (E → F) → Result E A → Result F A
map_err f (ok a) = ok a
map_err f (err e) = err (f e)

-- `r.map(f)`
abbrev pub map_ok {ℓ κ μ} :
    {E : Type ℓ} {A : Type κ} {B : Type μ} → (A → B) → Result E A → Result E B
map_ok f (ok a) = ok (f a)
map_ok f (err e) = err e

-- `r.unwrap_or_default()`, with the default written out
abbrev pub unwrap_or {ℓ κ} : {E : Type ℓ} {A : Type κ} → Result E A → A → A
unwrap_or (ok a) d = a
unwrap_or (err e) d = d

abbrev pub Exec : Type 0 → Type 0 → Type 0 → Type 0
Exec E S A = S → Result E A × S

module _ {E S A : Type 0} where
  abbrev pub pure : A → Exec E S A
  pure a s = (ok a, s)

  abbrev pub raise : E → Exec E S A
  raise e s = (err e, s)

  abbrev pub lift : Result E A → Exec E S A
  lift r s = (r, s)

  abbrev pub gets : (S → A) → Exec E S A
  gets f s = (ok (f s), s)

abbrev pub modify : {E S : Type 0} → (S → S) → Exec E S (Unit {0})
modify f s = (ok tt, f s)

-- `ensure!(b, e)`
abbrev pub ensure : {E S : Type 0} → Bool → E → Exec E S (Unit {0})
ensure true e s = (ok tt, s)
ensure false e s = (err e, s)

-- What a transactional dispatch leaves of the state: a failure is rolled back.
abbrev pub committed : {E A S : Type 0} → Result E A × S → S → S
committed (ok a, s') s = s'
committed (err x, s') s = s

pub committed-eq-ok :
    {E A S : Type 0} (m : Result E A × S) (s : S) {a : A} → m.0 ≡ ok a → committed m s ≡ m.1
committed-eq-ok (ok a, s') s p = refl
committed-eq-ok (err x, s') s p = cc

pub committed-eq-err :
    {E A S : Type 0} (m : Result E A × S) (s : S) {x : E} → m.0 ≡ err x → committed m s ≡ s
committed-eq-err (ok a, s') s p = cc
committed-eq-err (err x, s') s p = refl

module _ {E S A B : Type 0} where
  abbrev pub continue : Result E A → (A → Exec E S B) → Exec E S B
  continue (ok a) f s = f a s
  continue (err e) f s = (err e, s)

  infixl 5 ◌>>=◌ ◌>>◌
  abbrev pub ◌>>=◌ : Exec E S A → (A → Exec E S B) → Exec E S B
  ◌>>=◌ m f s = continue (m s).0 f (m s).1

  abbrev pub ◌>>◌ : Exec E S A → Exec E S B → Exec E S B
  m >> k = m >>= λ _. k

module _ {E S A B : Type 0} where
  continue-eq-ok :
      (r : Result E A) (f : A → Exec E S B) (t : S) {b : B} {s' : S}
      → continue r f t ≡ (ok b, s')
      → (a : A) × (r ≡ ok a) × (f a t ≡ (ok b, s'))
  continue-eq-ok (ok a) f t h = (a, refl, h)
  continue-eq-ok (err e) f t h = cc

  -- Inversion of a successful bind.
  pub >>=-eq-ok :
      (m : Exec E S A) (f : A → Exec E S B) (s : S) {b : B} {s' : S}
      → (m >>= f) s ≡ (ok b, s')
      → (a : A) × ((m s).0 ≡ ok a) × (f a (m s).1 ≡ (ok b, s'))
  >>=-eq-ok m f s h = continue-eq-ok (m s).0 f (m s).1 h

module _ {E S B : Type 0} where
  pub ensure-eq-ok :
      (b : Bool) (x : E) (f : Unit {0} → Exec E S B) (s : S) {v : B} {s' : S}
      → (ensure b x >>= f) s ≡ (ok v, s')
      → (b ≡ true) × (f tt s ≡ (ok v, s'))
  ensure-eq-ok true x f s h = (refl, h)
  ensure-eq-ok false x f s h = cc
