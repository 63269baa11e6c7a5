-- ===== src/Failure/Triples.antt =====
-- Triples for calls: from a world with `P`, the call either returns, in a world with `Q` of its
-- result, or fails or panics in a world with `E`.
use mathlib.Core.Path.{◌≡◌, refl}
use dra_example_driver.Failure.Defs.{Error, Outcome, ok, err, panicked, map_error}
use dra_example_driver.Failure.Action.{
  Action, pure, raise, panic, lift, gets, modify, continue, ◌>>=◌, on_error, try,
}

module _ {W A : Type 0} where
  abbrev pub Post : (A → W → Type 0) → (W → Type 0) → Outcome A × W → Type 0
  Post Q E (ok a, w) = Q a w
  Post Q E (err e, w) = E w
  Post Q E (panicked, w) = E w

  pub record Triple (P : W → Type 0) (m : Action W A) (Q : A → W → Type 0) (E : W → Type 0)
      : Type 0 where
    pub run : (w : W) → P w → Post Q E (m w)

module _ {W A : Type 0} {P : W → Type 0} {E : W → Type 0} where
  pub pure-Triple : {Q : A → W → Type 0} (a : A) → ((w : W) → P w → Q a w) → Triple P (pure a) Q E
  pure-Triple a h = record { run = h }

  pub raise-Triple :
      {Q : A → W → Type 0} (e : Error) → ((w : W) → P w → E w) → Triple P (raise e) Q E
  raise-Triple e h = record { run = h }

  pub panic-Triple : {Q : A → W → Type 0} → ((w : W) → P w → E w) → Triple P panic Q E
  panic-Triple h = record { run = h }

  pub gets-Triple :
      {Q : A → W → Type 0} (f : W → A) → ((w : W) → P w → Q (f w) w) → Triple P (gets f) Q E
  gets-Triple f h = record { run = h }

  -- The rest of the block may use that `r` is a value.
  pub lift-Triple :
      {Q : A → W → Type 0} (r : Outcome A)
      → ((a : A) → r ≡ ok a → (w : W) → P w → Q a w)
      → ((w : W) → P w → E w)
      → Triple P (lift r) Q E
  lift-Triple (ok a) h g = record { run = h a refl }
  lift-Triple (err e) h g = record { run = g }
  lift-Triple panicked h g = record { run = g }

  pub weaken-Triple :
      {P' : W → Type 0} {Q Q' : A → W → Type 0} {E' : W → Type 0} (m : Action W A)
      → ((w : W) → P w → P' w)
      → ((a : A) (w : W) → Q' a w → Q a w)
      → ((w : W) → E' w → E w)
      → Triple P' m Q' E'
      → Triple P m Q E
  weaken-Triple {Q} {Q'} {E'} m before after failed t = record {
    run = λ w p. go (m w).0 (m w).1 (t.run w (before w p));
  }
    where
      go : (r : Outcome A) (w : W) → Post Q' E' (r, w) → Post Q E (r, w)
      go (ok a) w h = after a w h
      go (err e) w h = failed w h
      go panicked w h = failed w h

  pub on_error-Triple :
      {Q : A → W → Type 0} (f : Error → Error) (m : Action W A)
      → Triple P m Q E
      → Triple P (on_error f m) Q E
  on_error-Triple {Q} f m t = record { run = λ w p. go (m w).0 (m w).1 (t.run w p) }
    where
      go : (r : Outcome A) (w : W) → Post Q E (r, w) → Post Q E (map_error f r, w)
      go (ok a) w h = h
      go (err e) w h = h
      go panicked w h = h

module _ {W : Type 0} {P : W → Type 0} {E : W → Type 0} where
  pub modify-Triple :
      {Q : Unit {0} → W → Type 0} (f : W → W)
      → ((w : W) → P w → Q tt (f w))
      → Triple P (modify f) Q E
  modify-Triple f h = record { run = h }

module _ {W A B : Type 0} {P : W → Type 0} {E : W → Type 0} where
  pub bind-Triple :
      {Q : A → W → Type 0} {R : B → W → Type 0} (m : Action W A) (f : A → Action W B)
      → Triple P m Q E
      → ((a : A) → Triple (Q a) (f a) R E)
      → Triple P (m >>= f) R E
  bind-Triple {Q} {R} m f t u = record { run = λ w p. go (m w).0 (m w).1 (t.run w p) }
    where
      go : (r : Outcome A) (w : W) → Post Q E (r, w) → Post R E (continue r f w)
      go (ok a) w h = (u a).run w h
      go (err e) w h = h
      go panicked w h = h

module _ {W A B : Type 0} {P : W → Type 0} {E : W → Type 0} where
  -- The rest of the block may use that `r` has returned a value.
  pub bind-lift-Triple :
      {R : B → W → Type 0} (r : Outcome A) (f : A → Action W B)
      → ((a : A) → r ≡ ok a → Triple P (f a) R E)
      → ((w : W) → P w → E w)
      → Triple P (lift r >>= f) R E
  bind-lift-Triple (ok a) f h g = h a refl
  bind-lift-Triple (err e) f h g = record { run = g }
  bind-lift-Triple panicked f h g = record { run = g }

module _ {W A : Type 0} {P : W → Type 0} {E : W → Type 0} where
  -- After `try`, the world is one after a return or one after a failure.
  pub try-Triple :
      {Q : Outcome A → W → Type 0} (m : Action W A)
      → Triple P m (λ a. Q (ok a)) (λ w. E w × ((e : Error) → Q (err e) w))
      → Triple P (try m) Q E
  try-Triple {Q} m t = record { run = λ w p. go (m w).0 (m w).1 (t.run w p) }
    where
      go :
          (r : Outcome A) (w : W)
          → Post (λ a. Q (ok a)) (λ w'. E w' × ((e : Error) → Q (err e) w')) (r, w)
          → Post Q E (try (λ _. (r, w)) w)
      go (ok a) w h = h
      go (err e) w h = h.1 e
      go panicked w h = h.0

module _ {W A : Type 0} {P : W → Type 0} {E : W → Type 0} where
  -- A part of the condition that does not speak of the world.
  pub given-Triple :
      {X : Type 0} {Q : A → W → Type 0} (m : Action W A)
      → (X → Triple P m Q E)
      → Triple (λ w. P w × X) m Q E
  given-Triple m t = record { run = λ w h. (t h.1).run w h.0 }

module _ {W A : Type 0} where
  -- What holds of any call.
  pub trivial-Triple :
      {P : W → Type 0} (m : Action W A) → Triple P m (λ a w. Unit {0}) (λ w. Unit {0})
  trivial-Triple m = record { run = λ w h. go (m w).0 (m w).1 }
    where
      go : (r : Outcome A) (w : W) → Post (λ a w. Unit {0}) (λ w. Unit {0}) (r, w)
      go (ok a) w = tt
      go (err e) w = tt
      go panicked w = tt
