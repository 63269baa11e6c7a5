-- ===== src/Failure/Defs.antt =====
-- Errors as values, panics, and the effects of a Go function on the world that it runs in. An
-- `Outcome` is how a call ends: it returns a value with a nil error, returns an error, or panics.
use dra_example_driver.Common.{◌≡◌, refl, Bool, true, false, String, Text}

-- `wrap` is `fmt.Errorf` with `%w`, and `describe` with `%v`, which keeps only the text.
pub data Error : Type 0 where
  failure : String → Error
  about : String → Text → Error
  not_exist : Error
  recoverable : Error
  wrap : String → Error → Error
  describe : String → Error → Error

-- `errors.Is(err, fs.ErrNotExist)`
abbrev pub is_not_exist : Error → Bool
is_not_exist not_exist = true
is_not_exist (wrap message e) = is_not_exist e
is_not_exist _ = false

-- `errors.Is(err, kubeletplugin.ErrRecoverable)`
abbrev pub is_recoverable : Error → Bool
is_recoverable recoverable = true
is_recoverable (wrap message e) = is_recoverable e
is_recoverable _ = false

pub data Outcome (A : Type 0) : Type 0 where
  ok : A → Outcome A
  err : Error → Outcome A
  panicked : Outcome A

infixl 5 ◌>>=◌
abbrev pub ◌>>=◌ : {A B : Type 0} → Outcome A → (A → Outcome B) → Outcome B
panicked >>= next = panicked
err failed >>= next = err failed
ok value >>= next = next value

abbrev pub map_error : {A : Type 0} → (Error → Error) → Outcome A → Outcome A
map_error f (ok a) = ok a
map_error f (err e) = err (f e)
map_error f panicked = panicked

pub >>=-eq-ok :
    {A B : Type 0} (call : Outcome A) (next : A → Outcome B) {value : B}
    → (call >>= next) ≡ ok value
    → (x : A) × (call ≡ ok x) × (next x ≡ ok value)
>>=-eq-ok panicked next returned = cc
>>=-eq-ok (err failed) next returned = cc
>>=-eq-ok (ok x) next returned = (x, refl, returned)

pub map_error-eq-ok :
    {A : Type 0} (f : Error → Error) (m : Outcome A) {a : A} → map_error f m ≡ ok a → m ≡ ok a
map_error-eq-ok f (ok a) h = h
map_error-eq-ok f (err e) h = cc
map_error-eq-ok f panicked h = cc

pub ok-inj : {A : Type 0} {a b : A} → ok a ≡ ok b → a ≡ b
ok-inj h = cc
