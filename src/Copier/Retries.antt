-- ===== src/Copier/Retries.antt =====
-- What the attempts at a copy come to (pkg/commands/componentarchive/remote/copy.go, Copier.Copy).
use component_cli.Prelude.{ℕ, zero, suc, ◌≤◌, ◌≡◌, ◌↔◌, refl, some, Option-cases, inl, inr, arith}
use component_cli.Prelude.Result.{Error, ok, err, Result-cases}
use component_cli.Oci.{Formats}
use component_cli.Client.{Caches, Remotes, State}
use component_cli.Client.Copy.{Run, wrapped}
use component_cli.Client.Copy.Runs.{wrapped-ok}
use component_cli.Copier.Attempts.{retry}

module _ {f : Formats} {c : Caches f} {r : Remotes f} (m : Run f c r (Unit {0})) where
  -- So many attempts fail, each from the state that the one before left, and the next one succeeds.
  pub data Tried : ℕ → State f c r → State f c r → Type 0 where
    now : (s t : State f c r) → m s ≡ some (ok tt, t) → Tried zero s t
    again :
        (n : ℕ) (s s' t : State f c r) (e : Error)
        → m s ≡ some (err e, s')
        → Tried n s' t
        → Tried (suc n) s t

  attempts_of_success :
      (n : ℕ) (s t : State f c r) → retry n m s ≡ some (ok tt, t) → (k : ℕ) × (k ≤ n) × Tried k s t
  unfolding retry
  attempts_of_success zero s t h = (
    0,
    omega arith,
    now s t (wrapped-ok "copy finished with error, max retries exceeded" m s t tt h),
  )
  attempts_of_success (suc n) s t h = elim (Option-cases (m s)) [
    | inl e ↦ absurd (ground arith)
    | inr ((a, s'), e) ↦ elim (Result-cases a) [
      | inl (x, e') ↦ (0, omega arith, now s t (ground arith))
      | inr (failure, e') ↦
          let (k, most, tried) = attempts_of_success n s' t (rw (retry, e, e') at h) in
          (suc k, omega (arith, most), again k s s' t failure (rw e' at e) tried)
    ]
  ]

  success_of_attempts :
      (n k : ℕ) (s t : State f c r) → k ≤ n → Tried k s t → retry n m s ≡ some (ok tt, t)
  unfolding retry
  success_of_attempts zero k s t most (now _ _ e) = rw (retry, wrapped, e) refl
  success_of_attempts (suc n) k s t most (now _ _ e) = rw (retry, e) refl
  success_of_attempts zero k s t most (again k' _ s' _ failure e rest) =
      absurd (omega (arith, most))
  success_of_attempts (suc n) k s t most (again k' _ s' _ failure e rest) =
      rw (retry, e) (success_of_attempts n k' s' t (omega (arith, most)) rest)

  -- With a number of retries, Copy succeeds exactly where after at most so many failed attempts, each
  -- from the state that the one before left, one succeeds, and leaves what this one leaves.
  pub retry-Tried :
      (n : ℕ) (s t : State f c r)
      → (retry n m s ≡ some (ok tt, t)) ↔ ((k : ℕ) × (k ≤ n) × Tried k s t)
  retry-Tried n s t =
      (λ h. attempts_of_success n s t h, λ (k, most, tried). success_of_attempts n k s t most tried)

  -- The attempt that succeeds.
  last_try :
      (k : ℕ) (s t : State f c r) → Tried k s t → (s' : State f c r) × (m s' ≡ some (ok tt, t))
  last_try k s t (now _ _ e) = (s, e)
  last_try k s t (again k' _ s' _ failure e rest) = last_try k' s' t rest

  pub retry-ok :
      (n : ℕ) (s t : State f c r)
      → retry n m s ≡ some (ok tt, t)
      → (s' : State f c r) × (m s' ≡ some (ok tt, t))
  retry-ok n s t h = let (k, _, tried) = attempts_of_success n s t h in last_try k s t tried
