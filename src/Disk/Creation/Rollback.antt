-- ===== src/Disk/Creation/Rollback.antt =====
-- cli/src/driver/windows/disk/creation.rs, the loop of `rollback_created_disk`.
use wisp_disk.Base.{
  ℕ, zero, suc, ◌≤◌, ◌<◌, ◌≡◌, refl, Bool, true, false, Option, none, some, ltb, ltb→lt, Bool-cases,
  inl, inr, arith,
}
use mathlib.Core.Path.{subst}
use wisp_disk.Errors.{Error, Result, ok, err}
use wisp_disk.Machine.{Windows, Process, M}
use wisp_disk.Adapter.Reserved.{retry_interval}
use wisp_disk.Volume.{is_lock_refusal}
use wisp_disk.Disk.Creation.{decide, attempted, rollback_rounds}

-- The tries of a deletion: it is tried again only behind a refusal to lock, before the deadline, and
-- after a pause.
pub data Tries {W : Windows} (delete : M W (Unit {0})) (deadline : ℕ)
    : Process W → Result (Unit {0}) → Process W → Type 0 where
  deleted : {p p' : Process W} → delete p ≡ some (ok tt, p') → Tries delete deadline p (ok tt) p'
  failed_otherwise :
      {p p' : Process W} (e : Error)
      → delete p ≡ some (err e, p')
      → is_lock_refusal e ≡ false
      → Tries delete deadline p (err e) p'
  too_late :
      {p p' : Process W} (e : Error) (q : Process W) (os : W.State) (now : ℕ)
      → delete p ≡ some (err e, q)
      → is_lock_refusal e ≡ true
      → W.now q.os ≡ (now, os)
      → deadline ≤ now
      → record q { os = os } ≡ p'
      → Tries delete deadline p (err e) p'
  tried_again :
      {p p' : Process W} {r : Result (Unit {0})} (e : Error) (q : Process W) (os : W.State)
      (now : ℕ)
      → delete p ≡ some (err e, q)
      → is_lock_refusal e ≡ true
      → W.now q.os ≡ (now, os)
      → now < deadline
      → Tries delete deadline (record q { os = W.sleep retry_interval os }) r p'
      → Tries delete deadline p r p'

module _ {W : Windows} (delete : M W (Unit {0})) (deadline : ℕ) where
  decide-Tries :
      (again : M W (Unit {0})) (p q : Process W) (e : Error) (refusal : Bool)
      {r : Result (Unit {0})} {p' : Process W}
      → delete p ≡ some (err e, q)
      → is_lock_refusal e ≡ refusal
      → ((q : Process W) → again q ≡ some (r, p') → Tries delete deadline q r p')
      → decide deadline again e refusal q ≡ some (r, p')
      → Tries delete deadline p r p'
  unfolding decide
  decide-Tries again p q e false {r} {p'} d f k h =
      let same : err e ≡ r = ground arith in
      let last : delete p ≡ some (err e, p') = ground arith in
      subst (λ r. Tries delete deadline p r p') same (failed_otherwise e last f)
  decide-Tries again p q e true {r} {p'} d f k h =
      let now = (W.now q.os).0 in
      let os = (W.now q.os).1 in
      elim (Bool-cases (ltb now deadline)) [
        | inl early ↦
            tried_again e q os now d f refl (ltb→lt now deadline early)
              (k (record q { os = W.sleep retry_interval os }) (ground arith))
        | inr late ↦
            let same : err e ≡ r = ground arith in
            let last : record q { os = os } ≡ p' = ground arith in
            subst (λ r. Tries delete deadline p r p') same
              (too_late e q os now d f refl (ground arith) last)
      ]

  attempted-Tries :
      (again : M W (Unit {0})) (p : Process W) (o : Option (Result (Unit {0}) × Process W))
      {r : Result (Unit {0})} {p' : Process W}
      → delete p ≡ o
      → ((q : Process W) → again q ≡ some (r, p') → Tries delete deadline q r p')
      → attempted deadline again o ≡ some (r, p')
      → Tries delete deadline p r p'
  unfolding attempted
  attempted-Tries again p none d k h = cc
  attempted-Tries again p (some (ok done, q)) {r} {p'} d k h =
      let same : ok tt ≡ r = ground arith in
      let last : delete p ≡ some (ok tt, p') = ground arith in
      subst (λ r. Tries delete deadline p r p') same (deleted last)
  attempted-Tries again p (some (err e, q)) d k h =
      decide-Tries again p q e (is_lock_refusal e) d refl k h

  -- The rollback tries the deletion again only behind a refusal to lock, before the deadline and
  -- after a pause; it ends with the first other result, or with a refusal once the deadline has
  -- passed.
  pub rollback_rounds-Tries :
      (tries : ℕ) (p : Process W) (r : Result (Unit {0})) (p' : Process W)
      → rollback_rounds delete deadline tries p ≡ some (r, p')
      → Tries delete deadline p r p'
  unfolding rollback_rounds
  rollback_rounds-Tries zero p r p' h = cc
  rollback_rounds-Tries (suc tries) p r p' h =
      attempted-Tries (rollback_rounds delete deadline tries) p (delete p) refl
        (λ q k. rollback_rounds-Tries tries q r p' k) h
