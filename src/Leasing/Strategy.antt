-- ===== src/Leasing/Strategy.antt =====
-- leasing/roundrobin.go, and the call of a group's strategy.
pub mod Rotation
use rogojin.Prelude.{
  ℕ, zero, suc, ◌+◌, ◌-◌, ◌%◌, ◌^◌, List, [], ◌∷◌, Option, none, some, ite, dec_lt, length,
  get_elem?, ℕ_discrete,
}
use rogojin.Leasing.Types.{
  Model, Env, Selection, round_robin, custom, Result, err, found, no_candidates, go_panic,
  selection_failed,
}

-- The cursor is a Go int, held as its 64-bit pattern.
abbrev pub word : ℕ
word = 2 ^ 64

-- `next % len`: Go's remainder takes the sign of the cursor, and a negative index panics.
unfoldable pub cursor_index : ℕ → ℕ → Option ℕ
cursor_index next len =
    ite (dec_lt next (2 ^ 63)) (some (next % len))
      (ite (ℕ_discrete ((word - next) % len) 0) (some 0) none)

module _ {A : Type 0} where
  -- RoundRobin.Select: the candidate at the cursor, which advances unless there was none.
  unfoldable pub select_round_robin : ℕ → List A → Result A × ℕ
  unfolding cursor_index
  select_round_robin next [] = (err no_candidates, next)
  select_round_robin next (c ∷ cs) = elim (cursor_index next (length (c ∷ cs))) [
    | none ↦ (err go_panic, next)
    | some i ↦ (found (get_elem? (c ∷ cs) i) go_panic, (next + 1) % word)
  ]

module _ {X C S : Type 0} (env : Env X C S) where
  -- Selection.Select on a strategy instance, which may change its state.
  unfoldable pub select : Selection C → List (Model X) → Result (Model X) × Selection C
  unfolding select_round_robin
  select (round_robin next) cs =
      let (picked, next') = select_round_robin next cs in (picked, round_robin next')
  select (custom c) cs =
      let (picked, c') = env.choose c cs in (found picked (selection_failed "selection"), custom c')

module _ {A : Type 0} where
  -- So many selections in a row over the same candidates.
  unfoldable pub select_times : ℕ → ℕ → List A → List (Result A)
  unfolding select_round_robin
  select_times zero next cs = []
  select_times (suc k) next cs =
      let (picked, next') = select_round_robin next cs in picked ∷ select_times k next' cs
