-- ===== src/Exec.antt =====
-- Methods that change an object and may raise. What was written before a raise stays written, so
-- the state comes back beside the error too.
use python_event_sourcery.Prelude.{◌≡◌, refl, Bool, true, false}
use python_event_sourcery.Errors.{Error, Result, ok, err}

abbrev pub Exec {ℓ κ} : Type ℓ → Type κ → Type (ℓ ⊔ κ)
Exec S A = S → Result A × S

module _ {ℓ κ} {S : Type ℓ} {A : Type κ} where
  abbrev pub pure : A → Exec S A
  pure a s = (ok a, s)

  abbrev pub raise : Error → Exec S A
  raise e s = (err e, s)

  abbrev pub lift : Result A → Exec S A
  lift r s = (r, s)

module _ {ℓ} {S : Type ℓ} where
  abbrev pub modify : (S → S) → Exec S (Unit {0})
  modify f s = (ok tt, f s)

  -- `if test: raise e`
  abbrev pub raise_if : Bool → Error → Exec S (Unit {0})
  raise_if true e s = (err e, s)
  raise_if false e s = (ok tt, s)

module _ {ℓ κ μ} {S : Type ℓ} {A : Type κ} {B : Type μ} where
  abbrev pub continue : Result A → (A → Exec S B) → Exec S B
  continue (ok a) f s = f a s
  continue (err e) f s = (err e, s)

  infixl 10 ◌>>=◌ ◌>>◌
  abbrev pub ◌>>=◌ : Exec S A → (A → Exec S B) → Exec S B
  ◌>>=◌ m f s = continue (m s).0 f (m s).1

  abbrev pub ◌>>◌ : Exec S A → Exec S B → Exec S B
  m >> n = m >>= λ _. n

  -- A block that returned went through its first part.
  pub continue-eq_ok :
      (r : Result A) (f : A → Exec S B) (s : S) {b : B} {s' : S}
      → continue r f s ≡ (ok b, s')
      → (a : A) × (r ≡ ok a) × (f a s ≡ (ok b, s'))
  continue-eq_ok (ok a) f s h = (a, refl, h)
  continue-eq_ok (err e) f s h = cc

  -- A block of two parts that leave the state alone leaves it alone.
  pub bind_state :
      (m : Exec S A) (f : A → Exec S B) (s : S)
      → (m s).1 ≡ s
      → ((a : A) → (f a s).1 ≡ s)
      → ((m >>= f) s).1 ≡ s
  bind_state m f s h k = by_result (m s).0 (m s).1 h
    where
      by_result : (r : Result A) (t : S) → t ≡ s → (continue r f t).1 ≡ s
      by_result (ok a) t e = rw e (k a)
      by_result (err x) t e = e

  -- An invariant that both parts keep is kept, whether the first returns or raises.
  pub bind_keeps {ν} :
      (P : S → Type ν) (m : Exec S A) (f : A → Exec S B) (s : S)
      → P (m s).1
      → ((a : A) (t : S) → t ≡ (m s).1 → P (f a t).1)
      → P ((m >>= f) s).1
  bind_keeps P m f s h k = by_result (m s).0
    where
      by_result : (r : Result A) → P (continue r f (m s).1).1
      by_result (ok a) = k a (m s).1 refl
      by_result (err x) = h
