-- ===== src/Machine/Polling.antt =====
-- The loop that several waits of cli/src/driver/windows share: try, look at the deadline, pause. It runs
-- on fuel, a count of its rounds.
use wisp_disk.Base.{
  ℕ, zero, suc, ◌+◌, ◌*◌, ◌≤◌, ◌<◌, ◌≡◌, ◌≢◌, refl, Bool, true, false, Option, none, some, leb,
  if◌then◌else◌, arith,
}
use wisp_disk.Errors.{Error, Result, ok, err}
use wisp_disk.Machine.{Windows, Process, HasClock, Io, M}
use wisp_disk.Machine.Io.{tell}

module _ {W : Windows} {A : Type 0} (attempt : M W (Option A)) (pause : ℕ → ℕ → Io W (Unit {0}))
    (late : Error) where
  paused : M W A → Result (Unit {0}) × Process W → Option (Result A × Process W)
  paused again (ok done, p) = again p
  paused again (err e, p) = some (err e, p)

  -- What a round makes of its attempt; `again` is the rest of the loop.
  tried : ℕ → M W A → Option (Result (Option A) × Process W) → Option (Result A × Process W)
  unfolding paused
  tried deadline again none = none
  tried deadline again (some (err e, p)) = some (err e, p)
  tried deadline again (some (ok (some a), p)) = some (ok a, p)
  tried deadline again (some (ok none, p)) =
      let (now, os) = W.now p.os in
      if leb deadline now
      then some (err late, record p { os = os })
      else paused again (pause deadline now (record p { os = os }))

  unfoldable pub poll : (deadline fuel : ℕ) → M W A
  unfolding tried
  poll deadline zero p = none
  poll deadline (suc fuel) p = tried deadline (poll deadline fuel) (attempt p)

  paused-found :
      (again : M W A) (r : Result (Unit {0}) × Process W) {a : A} {p' : Process W}
      → ((p : Process W)
          → again p ≡ some (ok a, p')
          → (q : Process W) × (attempt q ≡ some (ok (some a), p')))
      → paused again r ≡ some (ok a, p')
      → (q : Process W) × (attempt q ≡ some (ok (some a), p'))
  unfolding paused
  paused-found again (ok done, p) rest h = rest p h
  paused-found again (err e, p) rest h = cc

  timely-found :
      (again : M W A) (is_late : Bool) (p : Process W) (r : Result (Unit {0}) × Process W) {a : A}
      {p' : Process W}
      → ((p : Process W)
          → again p ≡ some (ok a, p')
          → (q : Process W) × (attempt q ≡ some (ok (some a), p')))
      → (if is_late then some (err late, p) else paused again r) ≡ some (ok a, p')
      → (q : Process W) × (attempt q ≡ some (ok (some a), p'))
  timely-found again true p r rest h = cc
  timely-found again false p r rest h = paused-found again r rest h

  tried-found :
      (deadline : ℕ) (again : M W A) (before : Process W)
      (o : Option (Result (Option A) × Process W)) {a : A} {p' : Process W}
      → attempt before ≡ o
      → ((p : Process W)
          → again p ≡ some (ok a, p')
          → (q : Process W) × (attempt q ≡ some (ok (some a), p')))
      → tried deadline again o ≡ some (ok a, p')
      → (q : Process W) × (attempt q ≡ some (ok (some a), p'))
  unfolding tried
  tried-found deadline again before none e rest h = cc
  tried-found deadline again before (some (err x, p)) e rest h = cc
  tried-found deadline again before (some (ok (some b), p)) e rest h = (before, ground arith)
  tried-found deadline again before (some (ok none, p)) e rest h =
      let looked : Process W = record p { os = (W.now p.os).1 } in
      timely-found again (leb deadline (W.now p.os).0) looked (pause deadline (W.now p.os).0 looked)
        rest h

  -- What the loop yields was found by its last attempt.
  pub poll-found :
      (deadline fuel : ℕ) (p : Process W) {a : A} {p' : Process W}
      → poll deadline fuel p ≡ some (ok a, p')
      → (q : Process W) × (attempt q ≡ some (ok (some a), p'))
  unfolding poll
  poll-found deadline zero p h = cc
  poll-found deadline (suc fuel) p h =
      tried-found deadline (poll deadline fuel) p (attempt p) refl
        (λ q k. poll-found deadline fuel q k) h

-- `thread::sleep(interval)`.
abbrev pub sleep_for : {W : Windows} → ℕ → ℕ → ℕ → Io W (Unit {0})
sleep_for {W} interval deadline now = tell (W.sleep interval)

module _ {W : Windows} (clock : HasClock W) {A : Type 0} (attempt : M W (Option A)) (interval : ℕ)
    (late : Error) (returns : (p : Process W) → attempt p ≢ none)
    (keeps_time : (p q : Process W) (r : Result (Option A))
      → attempt p ≡ some (r, q)
      → clock.time p.os ≤ clock.time q.os) where
  tried-ne-none :
      (deadline : ℕ) (again : M W A) (t : ℕ) (o : Option (Result (Option A) × Process W))
      → o ≢ none
      → ((q : Process W) (r : Result (Option A)) → o ≡ some (r, q) → t ≤ clock.time q.os)
      → ((q : Process W) → t + interval ≤ clock.time q.os → t < deadline → again q ≢ none)
      → tried attempt (sleep_for interval) late deadline again o ≢ none
  unfolding tried paused
  tried-ne-none deadline again t none h k rest = absurd (h refl)
  tried-ne-none deadline again t (some (err x, p)) h k rest = λ z. cc
  tried-ne-none deadline again t (some (ok (some b), p)) h k rest = λ z. cc
  tried-ne-none deadline again t (some (ok none, p)) h k rest =
      let later = W.sleep interval (W.now p.os).1 in
      let kept = k p (ok none) refl in
      let read = clock.now_reads p.os in
      let lasted = clock.sleep_lasts interval (W.now p.os).1 in
      ground (
        arith,
        kept,
        read,
        rest (record p { os = later }) (omega (arith, kept, read.0, read.1, lasted)),
      )

  -- A loop that sleeps returns when its attempts return and the clock runs: one round more than the
  -- time to the deadline has intervals is enough.
  pub poll-returns :
      (deadline rounds fuel : ℕ) (p : Process W)
      → deadline ≤ clock.time p.os + rounds * interval
      → rounds < fuel
      → poll attempt (sleep_for interval) late deadline fuel p ≢ none
  unfolding poll
  poll-returns deadline rounds zero p h k = absurd (omega (arith, k))
  poll-returns deadline zero (suc fuel) p h k =
      tried-ne-none deadline (poll attempt (sleep_for interval) late deadline fuel)
        (clock.time p.os) (attempt p) (returns p) (λ q r e. keeps_time p q r e)
        (λ q t l. absurd (omega (arith, h, l)))
  poll-returns deadline (suc rounds) (suc fuel) p h k =
      tried-ne-none deadline (poll attempt (sleep_for interval) late deadline fuel)
        (clock.time p.os) (attempt p) (returns p) (λ q r e. keeps_time p q r e)
        (λ q t l. poll-returns deadline rounds fuel q (omega (arith, h, t)) (omega (arith, k)))
