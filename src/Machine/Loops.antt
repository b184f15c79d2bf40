-- ===== src/Machine/Loops.antt =====
-- The monad of code with loops: `none` means that the fuel ran out.
use wisp_disk.Base.{Bool, Option, none, some, ◌≡◌, ◌≢◌, ◌⊎◌, inl, inr, arith, refl, if◌then◌else◌}
use wisp_disk.Errors.{Error, Result, ok, err}
use wisp_disk.Machine.{Windows, Process, Io, M}

module _ {W : Windows} where
  abbrev pub pure : {A : Type 0} → A → M W A
  pure a p = some (ok a, p)

  abbrev pub fail : {A : Type 0} → Error → M W A
  fail e p = some (err e, p)

  abbrev after :
      {A B : Type 0} → Option (Result A × Process W) → (A → M W B) → Option (Result B × Process W)
  after none f = none
  after (some (ok a, p)) f = f a p
  after (some (err e, p)) f = some (err e, p)

  infixl 5 ◌>>=◌ ◌>>◌
  abbrev pub ◌>>=◌ : {A B : Type 0} → M W A → (A → M W B) → M W B
  ◌>>=◌ m f p = after (m p) f

  abbrev pub ◌>>◌ : {B : Type 0} → M W (Unit {0}) → M W B → M W B
  m >> k = m >>= λ _. k

  -- Code without a loop, within code that has one.
  abbrev pub run : {A : Type 0} → Io W A → M W A
  run m p = some (m p)

  abbrev pub refuse_if : Bool → Error → M W (Unit {0})
  refuse_if test e p = some (if test then err e else ok tt, p)

  abbrev as_value :
      {A : Type 0} → Option (Result A × Process W) → Option (Result (Result A) × Process W)
  as_value none = none
  as_value (some (r, p)) = some (ok r, p)

  -- The result as a value, where the source matches on it.
  abbrev pub outcome : {A : Type 0} → M W A → M W (Result A)
  outcome m p = as_value (m p)

  after-eq_ok :
      {A B : Type 0} (o : Option (Result A × Process W)) (f : A → M W B) {b : B} {p' : Process W}
      → after o f ≡ some (ok b, p')
      → (a : A) × (q : Process W) × (o ≡ some (ok a, q)) × (f a q ≡ some (ok b, p'))
  after-eq_ok none f h = cc
  after-eq_ok (some (ok a, q)) f h = (a, q, refl, h)
  after-eq_ok (some (err e, q)) f h = cc

  -- A chain that succeeds has a first step that succeeds.
  pub >>=-eq_ok :
      {A B : Type 0} (m : M W A) (f : A → M W B) (p : Process W) {b : B} {p' : Process W}
      → (m >>= f) p ≡ some (ok b, p')
      → (a : A) × (q : Process W) × (m p ≡ some (ok a, q)) × (f a q ≡ some (ok b, p'))
  >>=-eq_ok m f p h = after-eq_ok (m p) f h

  after-eq_err :
      {A B : Type 0} (o : Option (Result A × Process W)) (f : A → M W B) {e : Error}
      {p' : Process W}
      → after o f ≡ some (err e, p')
      → (o ≡ some (err e, p'))
        ⊎ ((a : A) × (q : Process W) × (o ≡ some (ok a, q)) × (f a q ≡ some (err e, p')))
  after-eq_err none f h = cc
  after-eq_err (some (ok a, q)) f h = inr (a, q, refl, h)
  after-eq_err (some (err e, q)) f h = inl (ground arith)

  -- A chain that fails fails in its first step or behind it.
  pub >>=-eq_err :
      {A B : Type 0} (m : M W A) (f : A → M W B) (p : Process W) {e : Error} {p' : Process W}
      → (m >>= f) p ≡ some (err e, p')
      → (m p ≡ some (err e, p'))
        ⊎ ((a : A) × (q : Process W) × (m p ≡ some (ok a, q)) × (f a q ≡ some (err e, p')))
  >>=-eq_err m f p h = after-eq_err (m p) f h

  as_value-eq_ok :
      {A : Type 0} (o : Option (Result A × Process W)) {r : Result A} {q : Process W}
      → as_value o ≡ some (ok r, q)
      → o ≡ some (r, q)
  as_value-eq_ok none h = cc
  as_value-eq_ok (some (r, p)) h = ground arith

  pub outcome-eq_ok :
      {A : Type 0} (m : M W A) (p : Process W) {r : Result A} {q : Process W}
      → outcome m p ≡ some (ok r, q)
      → m p ≡ some (r, q)
  outcome-eq_ok m p h = as_value-eq_ok (m p) h

  after-ne-none :
      {A B : Type 0} (o : Option (Result A × Process W)) (f : A → M W B)
      → o ≢ none
      → ((a : A) (q : Process W) → f a q ≢ none)
      → after o f ≢ none
  after-ne-none none f h k = absurd (h refl)
  after-ne-none (some (ok a, q)) f h k = k a q
  after-ne-none (some (err e, q)) f h k = λ z. cc

  -- A chain of steps that return returns.
  pub >>=-ne-none :
      {A B : Type 0} (m : M W A) (f : A → M W B) (p : Process W)
      → m p ≢ none
      → ((a : A) (q : Process W) → f a q ≢ none)
      → (m >>= f) p ≢ none
  >>=-ne-none m f p h k = after-ne-none (m p) f h k

  pub run-ne-none : {A : Type 0} (m : Io W A) (p : Process W) → run m p ≢ none
  run-ne-none m p = λ z. cc
