-- ===== src/Failure/Action.antt =====
-- A call that reads and changes a world of type `W`. What it wrote stays written when it fails.
use mathlib.Core.Path.{◌≡◌, refl}
use dra_example_driver.Failure.Defs.{Error, Outcome, ok, err, panicked, map_error}

abbrev pub Action : Type 0 → Type 0 → Type 0
Action W A = W → Outcome A × W

module _ {W A : Type 0} where
  abbrev pub pure : A → Action W A
  pure a w = (ok a, w)

  abbrev pub raise : Error → Action W A
  raise e w = (err e, w)

  abbrev pub panic : Action W A
  panic w = (panicked, w)

  abbrev pub lift : Outcome A → Action W A
  lift r w = (r, w)

  abbrev pub gets : (W → A) → Action W A
  gets f w = (ok (f w), w)

module _ {W : Type 0} where
  abbrev pub modify : (W → W) → Action W (Unit {0})
  modify f w = (ok tt, f w)

module _ {W A B : Type 0} where
  abbrev pub continue : Outcome A → (A → Action W B) → Action W B
  continue (ok a) f w = f a w
  continue (err e) f w = (err e, w)
  continue panicked f w = (panicked, w)

  infixl 5 ◌>>=◌ ◌>>◌
  abbrev pub ◌>>=◌ : Action W A → (A → Action W B) → Action W B
  ◌>>=◌ m f w = continue (m w).0 f (m w).1

  abbrev pub ◌>>◌ : Action W A → Action W B → Action W B
  m >> k = m >>= λ _. k

  -- Inversion of a sequence that has returned.
  pub >>=-eq-ok :
      (m : Action W A) (f : A → Action W B) (w w'' : W) (b : B)
      → (m >>= f) w ≡ (ok b, w'')
      → (a : A) × (w' : W) × (m w ≡ (ok a, w')) × (f a w' ≡ (ok b, w''))
  >>=-eq-ok m f w w'' b h = go (m w).0 (m w).1 refl h
    where
      go :
          (r : Outcome A) (w' : W)
          → m w ≡ (r, w')
          → continue r f w' ≡ (ok b, w'')
          → (a : A) × (v : W) × (m w ≡ (ok a, v)) × (f a v ≡ (ok b, w''))
      go (ok a) w' e h = (a, w', e, h)
      go (err e') w' e h = cc
      go panicked w' e h = cc

abbrev pub attempted : {A : Type 0} → Outcome A → Outcome (Outcome A)
attempted (ok a) = ok (ok a)
attempted (err e) = ok (err e)
attempted panicked = panicked

module _ {W A : Type 0} where
  -- `if err != nil { return fmt.Errorf(…, err) }`
  abbrev pub on_error : (Error → Error) → Action W A → Action W A
  on_error f m w = (map_error f (m w).0, (m w).1)

  -- The error is a value for the caller to look at.
  abbrev pub try : Action W A → Action W (Outcome A)
  try m w = (attempted (m w).0, (m w).1)
