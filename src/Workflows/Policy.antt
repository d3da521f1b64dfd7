-- ===== src/Workflows/Policy.antt =====
-- workflows/policy.go. A handler is a function of a world W, which holds all that it reads and
-- changes, the context included. An error is a chain, as errors.As walks it; errors that join
-- several others do not occur in the package.
pub mod Retrying
use rogojin.Prelude.{
  ℕ, zero, suc, ◌+◌, Option, none, some, Bool, true, false, ltb, leb, if◌then◌else◌, ℤ, pos, negsuc,
  String,
}

pub data Fault (E : Type 0) : Type 0 where
  plain : E → Fault E
  wrapped : E → Fault E → Fault E
  permanent : Fault E → Fault E

-- What a run of a state's handler returns: the next state, nil at the end, or an error.
pub data Ran (E : Type 0) : Type 0 where
  next : Option String → Ran E
  failed : Fault E → Ran E

abbrev pub Handler : Type 0 → Type 0 → Type 0
Handler W E = W → Ran E × W

module _ {E : Type 0} where
  -- `errors.As(err, &perm)`, and then `perm.Unwrap()`.
  unfoldable pub as_permanent : Fault E → Option (Fault E)
  as_permanent (plain e) = none
  as_permanent (wrapped e f) = as_permanent f
  as_permanent (permanent f) = some f

  -- Permanent, where nil is no error.
  unfoldable pub mark_permanent : Option (Fault E) → Option (Fault E)
  mark_permanent none = none
  mark_permanent (some f) = some (permanent f)

-- `attempt >= attempts`
abbrev pub is_last : ℤ → ℕ → Bool
is_last (pos n) attempt = leb n attempt
is_last (negsuc n) attempt = true

-- What the context reads: its error once it is done, and the wait for a timer or for the context.
pub record Clock (W E : Type 0) : Type 0 where
  pub done : W → Option (Fault E)
  pub wait : ℤ → W → Option (Fault E) × W

module _ {W E : Type 0} (clock : Clock W E) (attempts : ℤ) (backoff : ℕ → ℤ) (h : Handler W E) where
  -- The loop of Retry, on fuel.
  unfoldable pub retry_loop : ℕ → ℕ → W → Option (Ran E × W)
  unfolding as_permanent
  retry_loop zero attempt w = none
  retry_loop (suc fuel) attempt w =
      let (ran, w₁) = h w in
      elim ran [
        | next s ↦ some (next s, w₁)
        | failed f ↦ elim (as_permanent f) [
          | some underlying ↦ some (failed underlying, w₁)
          | none ↦ elim (is_last attempts attempt) [
            | true ↦ some (failed f, w₁)
            | false ↦ elim (clock.done w₁) [
              | some cancelled ↦ some (failed f, w₁)
              | none ↦
                  let (stopped, w₂) = clock.wait (backoff attempt) w₁ in
                  elim stopped [
                    | some cancelled ↦ some (failed cancelled, w₂)
                    | none ↦ retry_loop fuel (attempt + 1) w₂
                  ]
            ]
          ]
        ]
      ]

-- Attempts of zero or less still run the handler once.
abbrev pub allowed : ℤ → ℕ
allowed (pos zero) = 1
allowed (pos (suc n)) = suc n
allowed (negsuc n) = 1

-- Retry's handler; `allowed` many rounds are enough.
unfoldable pub retry :
    {W E : Type 0} → Clock W E → ℤ → (ℕ → ℤ) → Handler W E → W → Option (Ran E × W)
unfolding retry_loop
retry clock attempts backoff h w = retry_loop clock attempts backoff h (allowed attempts) 1 w

unfoldable pub constant_backoff : ℤ → ℕ → ℤ
constant_backoff d attempt = d

-- `d > max` for a positive d.
abbrev pub exceeds : ℕ → ℤ → Bool
exceeds d (pos max) = ltb max d
exceeds d (negsuc max) = true

-- `if d <= 0 || d > max`
abbrev pub clamp : ℤ → ℤ → ℤ
clamp max (pos zero) = max
clamp max (negsuc d) = max
clamp max (pos (suc d)) = if exceeds (suc d) max then max else pos (suc d)

-- ExpBackoff; `grown` is its floating-point product, converted to a duration.
unfoldable pub exp_backoff : (ℕ → ℤ) → ℤ → ℕ → ℤ
exp_backoff grown max attempt = clamp max (grown attempt)
