-- ===== src/Machine/Io.antt =====
-- The monad of code without loops, and the system calls in it.
use wisp_disk.Base.{ℕ, ◌≤◌, arith, ◌≡◌, refl, Bool, true, false, if◌then◌else◌}
use wisp_disk.Base.Text.{Text}
use wisp_disk.Machine.Storage.{Answer, answered, refused}
use wisp_disk.Errors.{Error, message, os_error, context, Result, ok, err}
use wisp_disk.Machine.{HasClock, Windows, Process, Api, returned, failed, Io}

abbrev pub contextual : {A : Type 0} → (Error → Error) → Result A → Result A
contextual f (ok a) = ok a
contextual f (err e) = err (f e)

-- A failed call is the `io::Error` of the last-error code.
abbrev pub api_result : {A : Type 0} → Api A → Result A
api_result (returned a) = ok a
api_result (failed code) = err (os_error code)

abbrev pub answer_result : {A : Type 0} → Answer A → Result A
answer_result (answered a) = ok a
answer_result (refused e) = err (message e)

answer-eq_ok :
    {A : Type 0} (f : Error → Error) (reply : Answer A) {a : A}
    → contextual f (answer_result reply) ≡ ok a
    → reply ≡ answered a
answer-eq_ok f (answered a) h = ground arith
answer-eq_ok f (refused e) h = cc

contextual-eq_ok :
    {A : Type 0} (f : Error → Error) (reply : Api A) {a : A}
    → contextual f (api_result reply) ≡ ok a
    → reply ≡ returned a
contextual-eq_ok f (returned a) h = ground arith
contextual-eq_ok f (failed code) h = cc

module _ {W : Windows} where
  abbrev pub pure : {A : Type 0} → A → Io W A
  pure a p = (ok a, p)

  -- `bail!`, `Err(e)?`.
  abbrev pub fail : {A : Type 0} → Error → Io W A
  fail e p = (err e, p)

  abbrev after : {A B : Type 0} → Result A × Process W → (A → Io W B) → Result B × Process W
  after (ok a, p) f = f a p
  after (err e, p) f = (err e, p)

  infixl 5 ◌>>=◌ ◌>>◌
  abbrev pub ◌>>=◌ : {A B : Type 0} → Io W A → (A → Io W B) → Io W B
  ◌>>=◌ m f p = after (m p) f

  abbrev pub ◌>>◌ : {B : Type 0} → Io W (Unit {0}) → Io W B → Io W B
  m >> k = m >>= λ _. k

  -- `if test { bail!(e) }`.
  abbrev pub refuse_if : Bool → Error → Io W (Unit {0})
  refuse_if test e p = (if test then err e else ok tt, p)

  abbrev pub of_result : {A : Type 0} → Result A → Io W A
  of_result r p = (r, p)

  -- The result as a value, where the source matches on it.
  abbrev pub outcome : {A : Type 0} → Io W A → Io W (Result A)
  outcome m p = (ok (m p).0, (m p).1)

  -- `.map_err(f)`.
  abbrev pub map_err : {A : Type 0} → (Error → Error) → Io W A → Io W A
  map_err f m p = (contextual f (m p).0, (m p).1)

  abbrev pub call : {A : Type 0} → (W.State → Api A × W.State) → Io W A
  call f p = (api_result (f p.os).0, record p { os = (f p.os).1 })

  -- A call whose failure is `last_os_error(operation)`.
  abbrev pub call_for : {A : Type 0} → Text → (W.State → Api A × W.State) → Io W A
  call_for operation f = map_err (context operation) (call f)

  -- `if test { m }`.
  abbrev pub when : Bool → Io W (Unit {0}) → Io W (Unit {0})
  when true m p = m p
  when false m p = (ok tt, p)

  -- A call of the storage provider. Its error is the text of a `WMIError`.
  abbrev pub storage_call : {A : Type 0} → Text → (W.State → Answer A × W.State) → Io W A
  storage_call operation f p =
      (contextual (context operation) (answer_result (f p.os).0), record p { os = (f p.os).1 })

  -- A call that cannot fail.
  abbrev pub ask : {A : Type 0} → (W.State → A × W.State) → Io W A
  ask f p = (ok (f p.os).0, record p { os = (f p.os).1 })

  abbrev pub tell : (W.State → W.State) → Io W (Unit {0})
  tell f p = (ok tt, record p { os = f p.os })

  after-eq_ok :
      {A B : Type 0} (r : Result A) (q : Process W) (f : A → Io W B) {b : B} {p' : Process W}
      → after (r, q) f ≡ (ok b, p')
      → (a : A) × (r ≡ ok a) × (f a q ≡ (ok b, p'))
  after-eq_ok (ok a) q f h = (a, refl, h)
  after-eq_ok (err e) q f h = cc

  -- A chain that succeeds has a first step that succeeds.
  pub >>=-eq_ok :
      {A B : Type 0} (m : Io W A) (f : A → Io W B) (p : Process W) {b : B} {p' : Process W}
      → (m >>= f) p ≡ (ok b, p')
      → (a : A) × ((m p).0 ≡ ok a) × (f a (m p).1 ≡ (ok b, p'))
  >>=-eq_ok m f p h = after-eq_ok (m p).0 (m p).1 f h

  -- A call that succeeds was answered by Windows.
  pub call_for-eq_ok :
      {A : Type 0} (operation : Text) (f : W.State → Api A × W.State) (p : Process W) {a : A}
      → (call_for operation f p).0 ≡ ok a
      → (f p.os).0 ≡ returned a
  call_for-eq_ok operation f p h = contextual-eq_ok (context operation) (f p.os).0 h

  pub storage_call-eq_ok :
      {A : Type 0} (operation : Text) (f : W.State → Answer A × W.State) (p : Process W) {a : A}
      → (storage_call operation f p).0 ≡ ok a
      → (f p.os).0 ≡ answered a
  storage_call-eq_ok operation f p h = answer-eq_ok (context operation) (f p.os).0 h

  after-time :
      {A B : Type 0} (clock : HasClock W) (t : ℕ) (r : Result A) (q : Process W) (f : A → Io W B)
      → t ≤ clock.time q.os
      → ((a : A) (q : Process W) → clock.time q.os ≤ clock.time (f a q).1.os)
      → t ≤ clock.time (after (r, q) f).1.os
  after-time clock t (ok a) q f h k = omega (arith, h, k a q)
  after-time clock t (err e) q f h k = h

  -- A chain of steps that do not turn the clock back does not turn it back.
  pub >>=-time :
      {A B : Type 0} (clock : HasClock W) (m : Io W A) (f : A → Io W B) (p : Process W)
      → clock.time p.os ≤ clock.time (m p).1.os
      → ((a : A) (q : Process W) → clock.time q.os ≤ clock.time (f a q).1.os)
      → clock.time p.os ≤ clock.time ((m >>= f) p).1.os
  >>=-time clock m f p h k = after-time clock (clock.time p.os) (m p).0 (m p).1 f h k
