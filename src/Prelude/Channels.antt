-- ===== src/Prelude/Channels.antt =====
-- A Go channel with a buffer, and families indexed by handles (pointers) with update at one.
-- `taken` is the channel's history: what has been received from it, oldest first.
use Prim.Native.Nat.{ℕ}
use mathlib.Core.Logic.{ite}
use mathlib.Core.Bool.{Bool, true, false}
use mathlib.Core.List.{List, [], ◌∷◌, ◌++◌}
use native.Mathlib.Decide.{ℕ_discrete}
use rogojin.Prelude.Tests.{ltb, if◌then◌else◌}
use rogojin.Prelude.Lists.{length}

abbrev pub update {ℓ} : {A : Type ℓ} → (ℕ → A) → ℕ → A → ℕ → A
update f i a j = ite (ℕ_discrete i j) a (f j)

-- `panicked` records a send on the channel after its close, or a second close.
pub record Chan (A : Type 0) : Type 0 where
  pub cap : ℕ
  pub queue : List A
  pub taken : List A
  pub closed : Bool
  pub panicked : Bool

module _ {A : Type 0} where
  -- `make(chan A, n)`
  unfoldable pub make_chan : ℕ → Chan A
  make_chan n = record { cap = n; queue = []; taken = []; closed = false; panicked = false }

  abbrev take_from : List A → Chan A → Chan A
  take_from [] c = c
  take_from (x ∷ xs) c = record c { queue = xs; taken = c.taken ++ x ∷ [] }

  -- `<-ch`: the oldest element. On an empty channel nothing is received yet.
  unfoldable pub take_chan : Chan A → Chan A
  take_chan c = take_from c.queue c

  -- `close(ch)`
  unfoldable pub close_chan : Chan A → Chan A
  close_chan c = if c.closed then record c { panicked = true } else record c { closed = true }

  -- `select { case ch <- x: default: }`: the channel after it, and whether it took the element.
  unfoldable pub try_send : A → Chan A → Chan A × Bool
  try_send x c =
      if c.closed
      then (record c { panicked = true }, true)
      else if ltb (length c.queue) c.cap
      then (record c { queue = c.queue ++ x ∷ [] }, true)
      else (c, false)
