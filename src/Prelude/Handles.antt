-- ===== src/Prelude/Handles.antt =====
-- Sets of handles (a Go map from pointers to the empty struct), as lists.
use Prim.Native.Nat.{ℕ, suc}
use mathlib.Core.Path.{◌≡◌}
use mathlib.Core.Logic.{ite}
use mathlib.Core.List.{List, [], ◌∷◌}
use native.Mathlib.Decide.{ℕ_discrete}
use native.Mathlib.Omega.{arith}

-- `delete(set, s)`
unfoldable pub remove : ℕ → List ℕ → List ℕ
remove i [] = []
remove i (j ∷ js) = ite (ℕ_discrete i j) (remove i js) (j ∷ remove i js)

-- How often a handle stands in a set.
unfoldable pub occurs : ℕ → List ℕ → ℕ
occurs j [] = 0
occurs j (i ∷ is) = ite (ℕ_discrete i j) (suc (occurs j is)) (occurs j is)

pub occurs-remove :
    (j i : ℕ) (is : List ℕ) → occurs j (remove i is) ≡ ite (ℕ_discrete i j) 0 (occurs j is)
unfolding remove occurs
occurs-remove j i [] = ground arith
occurs-remove j i (k ∷ is) = ground (arith, occurs-remove j i is)
