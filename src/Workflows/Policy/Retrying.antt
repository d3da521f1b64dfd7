-- ===== src/Workflows/Policy/Retrying.antt =====
-- workflows/policy.go: proofs about Retry and ExpBackoff.
use rogojin.Prelude.{
  ℕ, zero, suc, ◌+◌, ◌≤◌, ◌<◌, ◌≡◌, refl, ap, Option, none, some, false, ltb, ◌⊎◌, inl, inr,
  Option-cases, Bool-cases, ℤ, pos, negsuc, String, arith,
}
use rogojin.Workflows.Policy.{
  Fault, Ran, next, failed, Handler, Clock, as_permanent, is_last, allowed, retry_loop, retry,
  exp_backoff, clamp,
}

is_last-allowed :
    (attempts : ℤ) (attempt : ℕ) → is_last attempts attempt ≡ false → attempt + 1 ≤ allowed attempts
is_last-allowed (pos zero) attempt e = ground arith
is_last-allowed (pos (suc n)) attempt e = ground arith
is_last-allowed (negsuc n) attempt e = absurd (cc e)

not-is_last :
    (attempts : ℤ) (attempt : ℕ)
    → 1 ≤ attempt
    → attempt < allowed attempts
    → is_last attempts attempt ≡ false
not-is_last (pos zero) attempt first more = absurd (omega arith)
not-is_last (pos (suc n)) attempt first more = ground arith
not-is_last (negsuc n) attempt first more = absurd (omega arith)

Ran-cases :
    {E : Type 0} (r : Ran E)
    → ((s : Option String) × (r ≡ next s)) ⊎ ((f : Fault E) × (r ≡ failed f))
Ran-cases (next s) = inl (s, refl)
Ran-cases (failed f) = inr (f, refl)

module _ {W E : Type 0} (clock : Clock W E) (attempts : ℤ) (backoff : ℕ → ℤ) (h : Handler W E) where
  -- So many runs fail and are retried, and the next one succeeds.
  abbrev pub Succeeds : ℕ → ℕ → W → Option String → W → Type 0
  Succeeds zero attempt w s w' = ((h w).0 ≡ next s) × ((h w).1 ≡ w')
  Succeeds (suc k) attempt w s w' =
      (f : Fault E) × ((h w).0 ≡ failed f)
      × (as_permanent f ≡ none)
      × (clock.done (h w).1 ≡ none)
      × ((clock.wait (backoff attempt) (h w).1).0 ≡ none)
      × Succeeds k (attempt + 1) (clock.wait (backoff attempt) (h w).1).1 s w'

  module _ (runs : W → ℕ) (counted : (w : W) → runs (h w).1 ≡ runs w + 1)
      (idle : (d : ℤ) (w : W) → runs (clock.wait d w).1 ≡ runs w) where
    -- The loop's result, after one run at least and no more than are left.
    abbrev Ends : ℕ → ℕ → W → Type 0
    Ends fuel attempt w =
        (r : Ran E) × (w' : W) × (retry_loop clock attempts backoff h fuel attempt w ≡ some (r, w'))
        × (runs w < runs w')
        × (runs w' + attempt ≤ runs w + allowed attempts + 1)

    retry_loop-Ends :
        (fuel attempt : ℕ) (w : W)
        → attempt ≤ allowed attempts
        → fuel + attempt ≡ allowed attempts + 1
        → Ends fuel attempt w
    unfolding retry_loop
    retry_loop-Ends zero attempt w within enough = absurd (omega arith)
    retry_loop-Ends (suc fuel) attempt w within enough = elim (Ran-cases (h w).0) [
      | inl (s, e) ↦ (next s, (h w).1, rw (e, retry_loop) refl, ran_once, within_once)
      | inr (f, e) ↦ elim (Option-cases (as_permanent f)) [
        | inr (u, p) ↦ (failed u, (h w).1, rw (e, p, retry_loop) refl, ran_once, within_once)
        | inl transient ↦ elim (Bool-cases (is_last attempts attempt)) [
          | inl over ↦
              (failed f, (h w).1, rw (e, transient, over, retry_loop) refl, ran_once, within_once)
          | inr more ↦ elim (Option-cases (clock.done (h w).1)) [
            | inr (c, d) ↦ (
              failed f,
              (h w).1,
              rw (e, transient, more, d, retry_loop) refl,
              ran_once,
              within_once,
            )
            | inl live ↦ elim (Option-cases (clock.wait (backoff attempt) (h w).1).0) [
              | inr (c, d) ↦ (
                failed c,
                (clock.wait (backoff attempt) (h w).1).1,
                rw (e, transient, more, live, d, retry_loop) refl,
                omega (arith, counted w, idle (backoff attempt) (h w).1),
                omega (arith, counted w, idle (backoff attempt) (h w).1),
              )
              | inl waited ↦
                  let w₂ = (clock.wait (backoff attempt) (h w).1).1 in
                  let (r, w', same, some_run, few) =
                    retry_loop-Ends fuel (attempt + 1) w₂ (is_last-allowed attempts attempt more)
                      (omega arith) in
                  (
                    r,
                    w',
                    rw (e, transient, more, live, waited, retry_loop) same,
                    omega (arith, counted w, idle (backoff attempt) (h w).1),
                    omega (arith, counted w, idle (backoff attempt) (h w).1),
                  )
            ]
          ]
        ]
      ]
    ]
      where
        ran_once : runs w < runs (h w).1
        ran_once = omega (arith, counted w)

        within_once : runs (h w).1 + attempt ≤ runs w + allowed attempts + 1
        within_once = omega (arith, counted w)

    -- Where `runs` counts the handler's runs and no wait changes that count, Retry ends with a result after at least one run and
    -- at most as many as it is allowed (one if the attempts are zero or negative).
    pub retry-runs :
        (w : W)
        → (r : Ran E) × (w' : W) × (retry clock attempts backoff h w ≡ some (r, w'))
          × (runs w < runs w')
          × (runs w' ≤ runs w + allowed attempts)
    unfolding retry
    retry-runs w =
        let (r, w', same, some_run, few) =
          retry_loop-Ends (allowed attempts) 1 w (allowed_some attempts) refl in
        (r, w', same, some_run, omega arith)
      where
        allowed_some : (n : ℤ) → 1 ≤ allowed n
        allowed_some (pos zero) = omega arith
        allowed_some (pos (suc n)) = omega arith
        allowed_some (negsuc n) = omega arith

  retry_loop-Succeeds :
      (k fuel attempt : ℕ) (w : W) (s : Option String) (w' : W)
      → 1 ≤ attempt
      → k < fuel
      → attempt + k ≤ allowed attempts
      → Succeeds k attempt w s w'
      → retry_loop clock attempts backoff h fuel attempt w ≡ some (next s, w')
  unfolding retry_loop
  retry_loop-Succeeds k zero attempt w s w' first little within done = absurd (omega arith)
  retry_loop-Succeeds zero (suc fuel) attempt w s w' first little within (ran, here) =
      rw (ran, retry_loop) (ap (λ u. some (next s, u)) here)
  retry_loop-Succeeds (suc k) (suc fuel) attempt w s w' first little within
        (f, ran, transient, live, waited, later) =
      rw
        (ran, transient, not-is_last attempts attempt first (omega arith), live, waited, retry_loop)
        (retry_loop-Succeeds k fuel (attempt + 1) (clock.wait (backoff attempt) (h w).1).1 s w'
          (omega arith) (omega arith) (omega arith) later)

  -- If fewer runs than allowed fail, each with an error that is not permanent and with the context
  -- not done, and the next run succeeds, then Retry returns that success.
  pub retry-Succeeds :
      (k : ℕ) (w : W) (s : Option String) (w' : W)
      → k < allowed attempts
      → Succeeds k 1 w s w'
      → retry clock attempts backoff h w ≡ some (next s, w')
  unfolding retry
  retry-Succeeds k w s w' within done =
      retry_loop-Succeeds k (allowed attempts) 1 w s w' (omega arith) (omega arith) (omega arith)
        done

-- ExpBackoff stays above zero and within a positive cap, whatever the floating-point product was.
pub exp_backoff-bounds :
    (grown : ℕ → ℤ) (max attempt : ℕ)
    → 0 < max
    → (d : ℕ) × (exp_backoff grown (pos max) attempt ≡ pos d) × (0 < d) × (d ≤ max)
unfolding exp_backoff
exp_backoff-bounds grown max attempt positive = clamped (grown attempt)
  where
    clamped : (g : ℤ) → (d : ℕ) × (clamp (pos max) g ≡ pos d) × (0 < d) × (d ≤ max)
    clamped (pos zero) = (max, refl, positive, omega arith)
    clamped (negsuc n) = (max, refl, positive, omega arith)
    clamped (pos (suc n)) = elim (Bool-cases (ltb max (suc n))) [
      | inl over ↦ (max, rw over refl, positive, omega arith)
      | inr within ↦ (suc n, rw within refl, omega arith, ground arith)
    ]
